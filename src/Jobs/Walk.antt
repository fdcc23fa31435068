-- ===== src/Jobs/Walk.antt =====
-- A client that follows the cursors of server/src/jobs/jobs.service.ts `list` to the end.
use field_note.Common.{
  any, filter, IsOrdered, ℕ, zero, suc, ◌<◌, ◌≡◌, refl, ap, ◌∙◌, sym, true, false, inl, inr, Option,
  none, some, List, [], ◌∷◌, ◌++◌, map, Text, length, take, All-at, ◌==◌, ==_iff, split_full,
  take_short, length-split, Bool-cases, arith,
}
use mathlib.Core.Option
use mathlib.Core.List.{map-append, append_assoc, Perm}
use field_note.Result.{Result, ok, err}
use field_note.Database.{Db, Job}
use field_note.World.{World, run, Services}
use field_note.Repository.{load, has_id}
use field_note.Repository.Pages.{
  list_scoped, listed, list_scoped_first, list_scoped_next, any_here, behind_here, HasPrimaryKey,
  listed-HaveKeys, listed-named, listed-perm, listed-IsOrdered, is_listed, newer, behind,
}
use field_note.Jobs.Dto.{JobDto, job_to_dto}
use field_note.Jobs.Pages.{JobPage, list, next_cursor, cursor_of, last_id}

abbrev and_more : List JobDto → Option Text → (Text → Option (List JobDto)) → Option (List JobDto)
and_more items none k = some items
and_more items (some c) k = Option.map (λ more. items ++ more) (k c)

abbrev collect : Result JobPage → (Text → Option (List JobDto)) → Option (List JobDto)
collect (err e) k = none
collect (ok page) k = and_more page.items page.next_cursor k

last_id-append :
    (db : Db) (js : List Job) (r : Job) → last_id (map (load db) (js ++ r ∷ [])) ≡ some r.id
unfolding last_id load
last_id-append db [] r = refl
last_id-append db (j ∷ []) r = refl
last_id-append db (j ∷ k ∷ js) r = last_id-append db (k ∷ js) r

length-map : {A B : Type 0} (f : A → B) (xs : List A) → length (map f xs) ≡ length xs
length-map f [] = refl
length-map f (x ∷ xs) = ap suc (length-map f xs)

map-map :
    {A B D : Type 0} (g : B → D) (f : A → B) (xs : List A)
    → map g (map f xs) ≡ map (λ x. g (f x)) xs
map-map g f [] = refl
map-map g f (x ∷ xs) = ap (λ l. g (f x) ∷ l) (map-map g f xs)

-- The item that a row is listed as.
abbrev pub item : Db → Job → JobDto
item db j = job_to_dto (load db j) none

module _ {C : Type 0} (S : Services C) (user_id : Text) (limit : ℕ) where
  -- Every page behind the cursor, in one list; `none` if a request throws or the fuel runs out.
  unfoldable pub walk : ℕ → Option Text → World C → Option (List JobDto)
  unfolding list
  walk zero cursor w = none
  walk (suc fuel) cursor w =
      let (r, w') = list S user_id cursor limit w in collect r (λ c. walk fuel (some c) w')

  list_full :
      (cursor : Option Text) (w : World C) (rows ys : List Job) (r : Job)
      → list_scoped S user_id cursor limit w.db ≡ ok (map (load w.db) rows)
      → rows ≡ ys ++ r ∷ []
      → length rows ≡ limit
      → list S user_id cursor limit w
        ≡ (ok (record { items = map (item w.db) rows; next_cursor = some r.id }), w)
  unfolding list run next_cursor cursor_of
  list_full cursor w rows ys r h e full =
      rw
        (
          h,
          length-map (load w.db) rows,
          (==_iff _ _).1 full,
          ap (λ l. last_id (map (load w.db) l)) e,
          last_id-append w.db ys r,
          map-map,
        )
        refl

  list_last :
      (cursor : Option Text) (w : World C) (rows : List Job)
      → list_scoped S user_id cursor limit w.db ≡ ok (map (load w.db) rows)
      → (length rows == limit) ≡ false
      → list S user_id cursor limit w
        ≡ (ok (record { items = map (item w.db) rows; next_cursor = none }), w)
  unfolding list run next_cursor
  list_last cursor w rows h short = rw (h, length-map (load w.db) rows, short, map-map) refl

  -- The page behind the last row of a full one.
  next_page :
      (w : World C) (front : List Job) (r : Job) (zs : List Job)
      → HasPrimaryKey w.db
      → listed user_id w.db ≡ front ++ r ∷ zs
      → list_scoped S user_id (some r.id) limit w.db ≡ ok (map (load w.db) (take limit zs))
  next_page w front r zs k rows =
      let named = All-at _ front r zs (rw rows at (listed-named user_id w.db k)) in
      let there : any (has_id r.id) (listed user_id w.db) ≡ true = rw rows (any_here r zs front) in
      let rest : behind r.id (listed user_id w.db) ≡ zs =
        rw rows (behind_here r zs front (rw rows at (listed-HaveKeys user_id w.db k))) in
      list_scoped_next S user_id r.id limit w.db named there
      ∙ ap (λ l. ok (map (load w.db) (take limit l))) rest

  walk_behind :
      (fuel : ℕ) (cursor : Option Text) (w : World C) (pre suf : List Job)
      → 0 < limit
      → HasPrimaryKey w.db
      → listed user_id w.db ≡ pre ++ suf
      → list_scoped S user_id cursor limit w.db ≡ ok (map (load w.db) (take limit suf))
      → length suf < fuel
      → walk fuel cursor w ≡ some (map (item w.db) suf)
  unfolding walk
  walk_behind zero cursor w pre suf pos k rows page enough = absurd (omega arith)
  walk_behind (suc fuel) cursor w pre suf pos k rows page enough =
      elim (Bool-cases (length (take limit suf) == limit)) [
        | inr short ↦
            let all = take_short limit suf (λ e. ground (arith, short, e)) in
            rw (list_last cursor w (take limit suf) page short)
              (ap (λ l. some (map (item w.db) l)) all)
        | inl full ↦
            let full' = (==_iff _ _).0 full in
            let (ys, r, zs, p, q) = split_full limit suf pos full' in
            let rows' : listed user_id w.db ≡ (pre ++ ys) ++ r ∷ zs =
              rows ∙ ap (λ l. pre ++ l) p ∙ sym (append_assoc pre ys (r ∷ zs)) in
            let fewer : length zs < fuel =
              omega (arith, ap length p, length-split ys r zs, enough) in
            let rest =
              walk_behind fuel (some r.id) w ((pre ++ ys) ++ r ∷ []) zs pos k
                (rows' ∙ sym (append_assoc (pre ++ ys) (r ∷ []) zs))
                (next_page w (pre ++ ys) r zs k rows') fewer in
            rw (list_full cursor w (take limit suf) ys r page q full', rest, q, p)
              (simp (map-append, append_assoc))
      ]

  -- With a limit that is not 0, and rows whose ids are distinct and not empty, a client that asks
  -- for the first page and then follows the cursors, while nothing is written, gets to the end
  -- within one request more than the user has jobs, and has then been given the jobs of the table
  -- that are the user's and not deleted, each once, by falling time of creation and then id.
  pub walk_lists_all :
      (w : World C)
      → 0 < limit
      → HasPrimaryKey w.db
      → (walk (suc (length (listed user_id w.db))) none w
          ≡ some (map (item w.db) (listed user_id w.db)))
        × Perm (listed user_id w.db) (filter (is_listed user_id) w.db.jobs)
        × IsOrdered newer (listed user_id w.db)
  walk_lists_all w pos k = (
    walk_behind _ none w [] (listed user_id w.db) pos k refl
        (list_scoped_first S user_id limit w.db) (omega arith),
    listed-perm user_id w.db,
    listed-IsOrdered user_id w.db,
  )
