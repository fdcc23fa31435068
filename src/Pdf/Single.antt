-- ===== src/Pdf/Single.antt =====
-- server/src/processing/pdf/pdf-renderer.service.ts: of the browsers that renders ask for, one runs.
use field_note.Common.{
  ℕ, ◌≡◌, refl, ap, ◌∙◌, inl, inr, true, false, Option, none, some, [], ◌∷◌, any, filter, ◌==◌,
  Bool-cases, arith,
}
use field_note.Pdf.Browser.{
  Renderer, new_renderer, Handle, is_connected, is_under_way, start_launch, launch, held,
  get_browser, without, launched, launch_failed, lose, on_module_destroy, Step, Uses, IsSingle,
}

launch-IsSingle :
    (o : Option ℕ) (r : Renderer)
    → r.launching ≡ o
    → r.running ≡ []
    → IsSingle r
    → IsSingle (launch o r).1
unfolding launch start_launch
launch-IsSingle none r same none_runs (inl (quiet, free, _)) =
    inr (r.next, ap (λ ps. r.next ∷ ps) quiet, refl, none_runs)
launch-IsSingle none r same none_runs (inr (p, one, waits, _)) =
    absurd (ground (arith, same, waits))
launch-IsSingle (some p) r same none_runs h = h

only-IsConnected : (b : ℕ) (r : Renderer) → r.running ≡ b ∷ [] → is_connected b r ≡ true
unfolding is_connected any
only-IsConnected b r one = rw one (ground arith)

unheld :
    (r : Renderer)
    → ((b : ℕ) → r.browser ≡ some b → is_connected b r ≡ false)
    → IsSingle r
    → r.running ≡ []
unheld r lost (inr (p, one, waits, none_runs)) = none_runs
unheld r lost (inl (quiet, free, inl none_runs)) = none_runs
unheld r lost (inl (quiet, free, inr (b, one, holds))) =
    absurd (ground (arith, lost b holds, only-IsConnected b r one))

held-IsSingle : (o : Option ℕ) (r : Renderer) → r.browser ≡ o → IsSingle r → IsSingle (held o r).1
unfolding held
held-IsSingle none r same h =
    launch-IsSingle r.launching r refl
      (unheld r (λ b holds. absurd (ground (arith, same, holds))) h) h
held-IsSingle (some b) r same h = elim (Bool-cases (is_connected b r)) [
  | inl e ↦ rw e h
  | inr e ↦
      let lost : (c : ℕ) → r.browser ≡ some c → is_connected c r ≡ false =
        λ c holds. (let equal : b ≡ c = cc (same, holds) in rw (← equal) e) in
      rw e (launch-IsSingle r.launching r refl (unheld r lost h) h)
]

get_browser-IsSingle : (r : Renderer) → IsSingle r → IsSingle (get_browser r).1
unfolding get_browser
get_browser-IsSingle r h = held-IsSingle r.browser r refl h

only_way : (p q : ℕ) (r : Renderer) → r.under_way ≡ q ∷ [] → is_under_way p r ≡ true → q ≡ p
unfolding is_under_way any
only_way p q r one there = ground (arith, rw one at there)

ended : (p q : ℕ) (r : Renderer) → r.under_way ≡ q ∷ [] → q ≡ p → without p r.under_way ≡ []
unfolding filter
ended p q r one same = rw one (ground (arith, same))

not_quiet : (p : ℕ) (r : Renderer) → r.under_way ≡ [] → is_under_way p r ≡ true → ⊥
unfolding is_under_way any
not_quiet p r quiet there = ground (arith, rw quiet at there)

launched-IsSingle :
    (p : ℕ) (r : Renderer) → is_under_way p r ≡ true → IsSingle r → IsSingle (launched p r)
unfolding launched
launched-IsSingle p r there (inl (quiet, free, _)) = absurd (not_quiet p r quiet there)
launched-IsSingle p r there (inr (q, one, waits, none_runs)) =
    inl
      (ended p q r one (only_way p q r one there), refl, inr (p, ap (λ bs. p ∷ bs) none_runs, refl))

launch_failed-IsSingle :
    (p : ℕ) (r : Renderer) → is_under_way p r ≡ true → IsSingle r → IsSingle (launch_failed p r)
unfolding launch_failed
launch_failed-IsSingle p r there (inl (quiet, free, _)) = absurd (not_quiet p r quiet there)
launch_failed-IsSingle p r there (inr (q, one, waits, none_runs)) =
    inl (ended p q r one (only_way p q r one there), refl, inl none_runs)

lose-IsSingle : (b : ℕ) (r : Renderer) → IsSingle r → IsSingle (lose b r)
unfolding lose filter
lose-IsSingle b r (inr (p, one, waits, none_runs)) = inr (p, one, waits, rw none_runs refl)
lose-IsSingle b r (inl (quiet, free, inl none_runs)) = inl (quiet, free, inl (rw none_runs refl))
lose-IsSingle b r (inl (quiet, free, inr (c, one, holds))) = elim (Bool-cases (c == b)) [
  | inl e ↦ inl (quiet, free, inl (rw (one, e) refl))
  | inr e ↦ inl (quiet, free, inr (c, rw (one, e) refl, holds))
]

step-IsSingle : (r r' : Renderer) → IsSingle r → Step r r' → IsSingle r'
step-IsSingle r _ h Step.ask = get_browser-IsSingle r h
step-IsSingle r _ h (Step.launch_done p there) = launched-IsSingle p r there h
step-IsSingle r _ h (Step.launch_fails p there) = launch_failed-IsSingle p r there h
step-IsSingle r _ h (Step.crash b) = lose-IsSingle b r h

uses-IsSingle_from : (r r' : Renderer) → IsSingle r → Uses r r' → IsSingle r'
uses-IsSingle_from r _ h Uses.start = h
uses-IsSingle_from r _ h (Uses.then before step) =
    step-IsSingle _ _ (uses-IsSingle_from r _ h before) step

launch-pending : (o : Option ℕ) (r : Renderer) (b : ℕ) → (launch o r).0 ≡ Handle.ready b → ⊥
unfolding launch start_launch
launch-pending none r b h = ground (arith, h)
launch-pending (some p) r b h = ground (arith, h)

held-ready :
    (o : Option ℕ) (r : Renderer) (b : ℕ) → (held o r).0 ≡ Handle.ready b → is_connected b r ≡ true
unfolding held
held-ready none r b h = absurd (launch-pending r.launching r b h)
held-ready (some c) r b h = elim (Bool-cases (is_connected c r)) [
  | inl e ↦
      let same : Handle.ready c ≡ Handle.ready b = rw e at h in
      let equal : c ≡ b = cc same in rw (← equal) e
  | inr e ↦ absurd (launch-pending r.launching r b (rw e at h))
]

none_connected : (b : ℕ) (r : Renderer) → r.running ≡ [] → is_connected b r ≡ true → ⊥
unfolding is_connected any
none_connected b r none_runs there = ground (arith, rw none_runs at there)

ready-only : (r : Renderer) (b : ℕ) → IsSingle r → is_connected b r ≡ true → r.running ≡ b ∷ []
unfolding is_connected any
ready-only r b (inr (p, one, waits, none_runs)) there = absurd (none_connected b r none_runs there)
ready-only r b (inl (quiet, free, inl none_runs)) there =
    absurd (none_connected b r none_runs there)
ready-only r b (inl (quiet, free, inr (c, one, holds))) there =
    let equal : c ≡ b = ground (arith, rw one at there) in one ∙ ap (λ x. x ∷ []) equal

-- Until the module is destroyed, in whatever order renders ask for a browser, launches end and
-- browsers crash: either no launch is under way, and no browser runs but the one that the service
-- holds; or one launch is under way, the one that the service waits for, and no browser runs. A
-- browser that a render gets at once is the only one that runs.
pub uses-IsSingle :
    (r : Renderer)
    → Uses new_renderer r
    → IsSingle r × ((b : ℕ) → (get_browser r).0 ≡ Handle.ready b → r.running ≡ b ∷ [])
unfolding get_browser
uses-IsSingle r uses =
    let single = uses-IsSingle_from new_renderer r (inl (refl, refl, inl refl)) uses in
    (single, λ b h. ready-only r b single (held-ready r.browser r b h))

destroyed :
    (o : Option ℕ) (r : Renderer)
    → r.browser ≡ o
    → IsSingle r
    → (on_module_destroy true (record r { browser = o })).running ≡ []
unfolding on_module_destroy lose filter
destroyed none r same h = unheld r (λ b holds. absurd (ground (arith, same, holds))) h
destroyed (some b) r same (inr (p, one, waits, none_runs)) = rw none_runs refl
destroyed (some b) r same (inl (quiet, free, inl none_runs)) = rw none_runs refl
destroyed (some b) r same (inl (quiet, free, inr (c, one, holds))) =
    let equal : c ≡ b = cc (same, holds) in rw one (ground (arith, equal))

-- A close that works leaves no browser running.
pub on_module_destroy_stops : (r : Renderer) → IsSingle r → (on_module_destroy true r).running ≡ []
on_module_destroy_stops r h = destroyed r.browser r refl h
