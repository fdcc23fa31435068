-- ===== src/Tests/Rendering.antt =====
-- The browser of server/src/processing/pdf/pdf-renderer.service.ts, on concrete uses.
use field_note.Common.{any, filter, ℕ, zero, suc, ◌≡◌, refl, true, [], ◌∷◌, codes, arith, ◌⊎◌}
use field_note.Result.{Error, ErrorKind, error, Result, ok, err}
use field_note.Pdf.Browser.{
  Renderer, new_renderer, get_browser, launched, lose, on_module_destroy, is_connected,
  is_under_way, start_launch, launch, held, Handle, Step, Uses, IsSingle,
}
use field_note.Pdf.Single.{uses-IsSingle}
use field_note.Pdf.Pages.{Browser, CountsPages, render_document, render_document-Closed}

-- Two renders ask, the launch ends, and the browser crashes; the next render launches again.
abbrev asked_twice : Renderer
asked_twice = (get_browser (get_browser new_renderer).1).1

abbrev relaunched : Renderer
relaunched = launched 1 (get_browser (lose 0 (launched 0 asked_twice))).1

-- The second render shares the launch of the first.
one_launch : asked_twice.under_way ≡ 0 ∷ []
unfolding get_browser held launch start_launch
one_launch = refl

relaunched_uses : Uses new_renderer relaunched
unfolding get_browser held launch start_launch launched lose is_connected is_under_way any filter
relaunched_uses =
    Uses.then
      (Uses.then
        (Uses.then
          (Uses.then (Uses.then (Uses.then Uses.start Step.ask) Step.ask) (Step.launch_done 0 refl))
          (Step.crash 0))
        Step.ask)
      (Step.launch_done 1 refl)

uses-IsSingle_example :
    IsSingle relaunched
    × ((b : ℕ) → (get_browser relaunched).0 ≡ Handle.ready b → relaunched.running ≡ b ∷ [])
uses-IsSingle_example = uses-IsSingle relaunched relaunched_uses

relaunched_runs : relaunched.running ≡ 1 ∷ []
unfolding get_browser held launch start_launch launched lose is_connected any filter
relaunched_runs = refl

-- The module is destroyed while a launch is under way: the browser runs on.
launch_outlives :
    (launched 0 (on_module_destroy true (get_browser new_renderer).1)).running ≡ 0 ∷ []
unfolding get_browser held launch start_launch launched on_module_destroy filter
launch_outlives = refl

-- A browser whose outside is the number of its pages, and whose documents do not load.
abbrev crashed : Error
crashed = error ErrorKind.plain (codes "Page crashed!")

abbrev close_page : ℕ → Result (Unit {0}) × ℕ
close_page zero = (err crashed, 0)
close_page (suc n) = (ok tt, n)

abbrev page_browser : Browser ℕ
page_browser = record {
  new_page = λ c. (ok c, suc c);
  set_content = λ page html c. (err crashed, c);
  print = λ page c. (ok [], c);
  close = λ page c. close_page c;
}

close_page-closes : (c : ℕ) → (close_page c).0 ≡ ok tt → suc (close_page c).1 ≡ c
close_page-closes zero e = absurd (ground (arith, e))
close_page-closes (suc n) e = refl

page_browser-CountsPages : CountsPages page_browser (λ c. c)
page_browser-CountsPages = record {
  opens = λ c page e. refl;
  opens_none = λ c x e. absurd (ground (arith, e));
  loads = λ page html c. refl;
  prints = λ page c. refl;
  closes = λ page c. close_page-closes c;
}

render_document-Closed_example :
    ((render_document page_browser (codes "<p>") 3).1 ≡ 3)
    ⊎ ((page : ℕ) × (before : ℕ) × (e : Error) × (page_browser.close page before
          ≡ (err e, (render_document page_browser (codes "<p>") 3).1))
        × ((render_document page_browser (codes "<p>") 3).0 ≡ err e))
render_document-Closed_example =
    render_document-Closed page_browser (λ c. c) page_browser-CountsPages (codes "<p>") 3

-- The document does not load: the error is thrown on, and the page is closed.
render_document_throws : render_document page_browser (codes "<p>") 3 ≡ (err crashed, 3)
unfolding render_document
render_document_throws = refl
