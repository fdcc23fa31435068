-- ===== src/Pdf/Browser.antt =====
-- server/src/processing/pdf/pdf-renderer.service.ts: the one browser of the service, which renders
-- share. The browser processes are the outside's.
use field_note.Common.{
  ℕ, suc, ◌≡◌, ◌⊎◌, Bool, true, not, Option, none, some, List, [], ◌∷◌, any, filter, ◌==◌,
  if◌then◌else◌,
}

-- `browser` and `launching` are the service's, a number for the browser and for the promise of a
-- launch. Of the outside there are the launches under way, and the browsers that are connected; a
-- launch gives its number to its browser.
pub record Renderer : Type 0 where
  pub browser : Option ℕ
  pub launching : Option ℕ
  pub under_way : List ℕ
  pub running : List ℕ
  pub next : ℕ

abbrev pub new_renderer : Renderer
new_renderer = record { browser = none; launching = none; under_way = []; running = []; next = 0 }

-- The promise that getBrowser returns: of the browser that is there, or of a launch.
pub data Handle : Type 0 where
  ready : ℕ → Handle
  pending : ℕ → Handle

unfoldable pub is_connected : ℕ → Renderer → Bool
is_connected b r = any (λ x. x == b) r.running

unfoldable pub is_under_way : ℕ → Renderer → Bool
is_under_way p r = any (λ x. x == p) r.under_way

-- puppeteer.launch
unfoldable pub start_launch : Renderer → Handle × Renderer
start_launch r = (
  Handle.pending r.next,
  record r { launching = some r.next; under_way = r.next ∷ r.under_way; next = suc r.next },
)

-- `if (!this.launching)`: a launch that is under way is shared.
unfoldable pub launch : Option ℕ → Renderer → Handle × Renderer
unfolding start_launch
launch none r = start_launch r
launch (some p) r = (Handle.pending p, r)

unfoldable pub held : Option ℕ → Renderer → Handle × Renderer
unfolding is_connected launch
held none r = launch r.launching r
held (some b) r = if is_connected b r then (Handle.ready b, r) else launch r.launching r

-- getBrowser
unfoldable pub get_browser : Renderer → Handle × Renderer
unfolding held
get_browser r = held r.browser r

abbrev pub without : ℕ → List ℕ → List ℕ
without b = filter (λ x. not (x == b))

-- What a launch does when it is done, and when it has failed.
unfoldable pub launched : ℕ → Renderer → Renderer
launched p r = record r {
  browser = some p;
  launching = none;
  under_way = without p r.under_way;
  running = p ∷ r.running;
}

unfoldable pub launch_failed : ℕ → Renderer → Renderer
launch_failed p r = record r { launching = none; under_way = without p r.under_way }

-- A browser that crashes or is closed.
unfoldable pub lose : ℕ → Renderer → Renderer
lose b r = record r { running = without b r.running }

-- onModuleDestroy, whose close of the browser may fail
unfoldable pub on_module_destroy : Bool → Renderer → Renderer
unfolding lose
on_module_destroy closes r = elim r.browser [
  | none ↦ r
  | some b ↦ record (if closes then lose b r else r) { browser = none }
]

-- Until the module is destroyed: renders ask for a browser, any launch under way ends, and browsers
-- crash.
pub data Step (r : Renderer) : Renderer → Type 0 where
  ask : Step r (get_browser r).1
  launch_done : (p : ℕ) → is_under_way p r ≡ true → Step r (launched p r)
  launch_fails : (p : ℕ) → is_under_way p r ≡ true → Step r (launch_failed p r)
  crash : (b : ℕ) → Step r (lose b r)

pub data Uses (r : Renderer) : Renderer → Type 0 where
  start : Uses r r
  then : {r' r'' : Renderer} → Uses r r' → Step r' r'' → Uses r r''

-- No launch is under way and no browser runs but the one that the service holds.
abbrev pub IsIdle : Renderer → Type 0
IsIdle r =
    (r.under_way ≡ [])
    × (r.launching ≡ none)
    × ((r.running ≡ []) ⊎ ((b : ℕ) × (r.running ≡ b ∷ []) × (r.browser ≡ some b)))

-- One launch is under way, the one that the service waits for, and no browser runs.
abbrev pub IsLaunching : Renderer → Type 0
IsLaunching r = (p : ℕ) × (r.under_way ≡ p ∷ []) × (r.launching ≡ some p) × (r.running ≡ [])

abbrev pub IsSingle : Renderer → Type 0
IsSingle r = IsIdle r ⊎ IsLaunching r
