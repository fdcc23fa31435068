-- ===== src/Pdf/Pages.antt =====
-- server/src/processing/pdf/pdf-renderer.service.ts: `render`, on the browser that it has got. The
-- browser is a parameter.
use field_note.Common.{ℕ, suc, ◌≡◌, refl, ◌∙◌, ◌⊎◌, inl, inr, Text, arith}
use field_note.Result.{after_finally, try_finally, Error, Result, ok, err, M, continue, ◌>>=◌, ◌>>◌}
use field_note.World.{Bytes}

-- The calls of one browser, and of its pages.
pub record Browser (C : Type 0) : Type 0 where
  pub new_page : M C ℕ
  pub set_content : ℕ → Text → M C (Unit {0})
  pub print : ℕ → M C Bytes
  pub close : ℕ → M C (Unit {0})

module _ {C : Type 0} (B : Browser C) where
  print_document : Text → ℕ → M C Bytes
  print_document html page = B.set_content page html >> B.print page

  unfoldable pub render_document : Text → M C Bytes
  unfolding print_document try_finally ◌>>=◌
  render_document html =
      B.new_page >>= λ page. try_finally (print_document html page) (B.close page)

-- What the browser documents of its pages, of which `pages` is the number.
pub record CountsPages {C : Type 0} (B : Browser C) (pages : C → ℕ) : Type 0 where
  pub opens :
      (c : C) (page : ℕ) → (B.new_page c).0 ≡ ok page → pages (B.new_page c).1 ≡ suc (pages c)
  pub opens_none : (c : C) (e : Error) → (B.new_page c).0 ≡ err e → pages (B.new_page c).1 ≡ pages c
  pub loads : (page : ℕ) (html : Text) (c : C) → pages (B.set_content page html c).1 ≡ pages c
  pub prints : (page : ℕ) (c : C) → pages (B.print page c).1 ≡ pages c
  pub closes :
      (page : ℕ) (c : C) → (B.close page c).0 ≡ ok tt → suc (pages (B.close page c).1) ≡ pages c

module _ {C : Type 0} (B : Browser C) (pages : C → ℕ) (k : CountsPages B pages) where
  printed :
      (page n : ℕ) (r : Result (Unit {0})) (c : C)
      → pages c ≡ n
      → pages (continue r (λ _. B.print page) c).1 ≡ n
  printed page n (ok u) c h = k.prints page c ∙ h
  printed page n (err e) c h = h

  print_document-pages :
      (html : Text) (page : ℕ) (c : C) → pages (print_document B html page c).1 ≡ pages c
  unfolding print_document ◌>>=◌
  print_document-pages html page c =
      printed page (pages c) (B.set_content page html c).0 _ (k.loads page html c)

  -- What a render leaves: as many pages as before, or the error of a close that failed.
  abbrev Closed : C → Result Bytes × C → Type 0
  Closed c z =
      (pages z.1 ≡ pages c)
      ⊎ ((page : ℕ) × (before : C) × (e : Error) × (B.close page before ≡ (err e, z.1))
          × (z.0 ≡ err e))

  closed_as :
      (html : Text) (page n : ℕ) (c : C) (closed : Result (Unit {0}))
      → pages c ≡ suc n
      → (B.close page c).0 ≡ closed
      → (r : Result Bytes)
      → (pages (B.close page c).1 ≡ n)
        ⊎ ((p : ℕ) × (before : C) × (e : Error) × (B.close p before ≡ (err e, (B.close page c).1))
            × (after_finally r (B.close page c).0 ≡ err e))
  closed_as html page n c (ok tt) h e r =
      let fewer = k.closes page c e in inl (omega (arith, fewer, h))
  closed_as html page n c (err x) h e r =
      inr (page, c, x, λ i. (e i, (B.close page c).1), rw e refl)

  finally_closes :
      (html : Text) (page : ℕ) (c c' : C)
      → pages c' ≡ suc (pages c)
      → Closed c (try_finally (print_document B html page) (B.close page) c')
  unfolding try_finally
  finally_closes html page c c' opened =
      let done = print_document B html page c' in
      closed_as html page (pages c) done.1 (B.close page done.1).0
        (print_document-pages html page c' ∙ opened) refl done.0

  opened_closes :
      (html : Text) (c : C) (r : Result ℕ)
      → (B.new_page c).0 ≡ r
      → Closed c (render_document B html c)
  unfolding render_document ◌>>=◌
  opened_closes html c (ok page) e = rw e (finally_closes html page c _ (k.opens c page e))
  opened_closes html c (err x) e = rw e (inl (k.opens_none c x e))

  -- A render, however it ends, leaves as many pages open as there were, unless it throws what the
  -- closing of its page has thrown, where the browser counts its pages as documented.
  pub render_document-Closed :
      (html : Text) (c : C)
      → (pages (render_document B html c).1 ≡ pages c)
        ⊎ ((page : ℕ) × (before : C) × (e : Error) × (B.close page before
              ≡ (err e, (render_document B html c).1))
            × ((render_document B html c).0 ≡ err e))
  render_document-Closed html c = opened_closes html c (B.new_page c).0 refl
