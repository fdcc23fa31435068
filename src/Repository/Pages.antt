-- ===== src/Repository/Pages.antt =====
-- server/src/jobs/jobs.repository.ts: `listScoped`, the page of a user's jobs behind a cursor.
-- Ids are UUIDs in lower case, whose order in the database is that of their code units.
use field_note.Common.{
  ℕ, ◌≡◌, refl, sym, Bool, true, false, ◌&&◌, ◌||◌, Option, none, some, List, [], ◌∷◌, ◌++◌, map,
  Text, text_eq, is_none, is_empty, filter, any, take, All, ltb, ◌==◌, text_leb, sort_with,
  if◌then◌else◌, arith, Bool-cases, inl, inr, HaveKeys, sort_with-All, text_eq_refl, All-at,
  All-filter, sort_with-HaveKeys, filter-HaveKeys, text_eq_iff, IsOrder, IsOrdered, text_leb_total,
  text_leb_trans, All-map_of, sort_with-IsOrdered, sort_with-perm, find?, ◌∙◌,
}
use mathlib.Core.List.{Perm}
use field_note.Result.{Result, ok, err}
use field_note.Database.{Db, Job, JobWithReport}
use field_note.World.{Services}
use field_note.Repository.{has_id, load}

-- orderBy: createdAt desc, id desc
unfoldable pub newer : Job → Job → Bool
newer i j = ltb j.created_at i.created_at || (i.created_at == j.created_at && text_leb j.id i.id)

unfoldable pub is_listed : Text → Job → Bool
is_listed user_id j = text_eq j.user_id user_id && is_none j.deleted_at

-- The rows of `where` in the order of `orderBy`.
unfoldable pub listed : Text → Db → List Job
unfolding newer is_listed
listed user_id db = sort_with newer (filter (is_listed user_id) db.jobs)

-- The rows behind the first one with the id.
unfoldable pub behind : Text → List Job → List Job
unfolding has_id
behind c [] = []
behind c (j ∷ js) = let rest = behind c js in if has_id c j then js else rest

module _ {C : Type 0} (S : Services C) where
  -- cursor: { id }, skip: 1
  rows_behind : Text → List Job → Result (List Job)
  unfolding behind has_id
  rows_behind c rows = if any (has_id c) rows then ok (behind c rows) else S.stray_cursor c rows

  -- A missing cursor and an empty one are both falsy.
  start_rows : Option Text → List Job → Result (List Job)
  unfolding rows_behind
  start_rows none rows = ok rows
  start_rows (some c) rows = if is_empty c then ok rows else rows_behind c rows

  abbrev page_of : ℕ → Db → Result (List Job) → Result (List JobWithReport)
  page_of limit db (ok rows) = ok (map (load db) (take limit rows))
  page_of limit db (err e) = err e

  -- listScoped
  unfoldable pub list_scoped : Text → Option Text → ℕ → Db → Result (List JobWithReport)
  unfolding start_rows listed load
  list_scoped user_id cursor limit db = page_of limit db (start_rows cursor (listed user_id db))

  -- The page from the start, and the page behind a row of the list.
  pub list_scoped_first :
      (user_id : Text) (limit : ℕ) (db : Db)
      → list_scoped user_id none limit db ≡ ok (map (load db) (take limit (listed user_id db)))
  unfolding list_scoped start_rows
  list_scoped_first user_id limit db = refl

  pub list_scoped_next :
      (user_id c : Text) (limit : ℕ) (db : Db)
      → is_empty c ≡ false
      → any (has_id c) (listed user_id db) ≡ true
      → list_scoped user_id (some c) limit db
        ≡ ok (map (load db) (take limit (behind c (listed user_id db))))
  unfolding list_scoped start_rows rows_behind
  list_scoped_next user_id c limit db named there = rw (named, there) refl

module _ (r : Job) (rest : List Job) where
  pub any_here : (pre : List Job) → any (has_id r.id) (pre ++ r ∷ rest) ≡ true
  unfolding any has_id
  any_here [] = rw (text_eq_refl r.id) refl
  any_here (j ∷ pre) = ground (arith, any_here pre)

  pub behind_here :
      (pre : List Job)
      → HaveKeys (λ j. j.id) (pre ++ r ∷ rest)
      → behind r.id (pre ++ r ∷ rest) ≡ rest
  unfolding behind has_id
  behind_here [] h = rw (text_eq_refl r.id) refl
  behind_here (j ∷ pre) h =
      let other = All-at (λ y. y.id ≡ j.id → ⊥) pre r rest h.0 in
      ground (arith, behind_here pre h.1, text_eq_iff j.id r.id, λ (e : j.id ≡ r.id). other (sym e))

-- The primary key of the table.
pub record HasPrimaryKey (db : Db) : Type 0 where
  pub keys : HaveKeys (λ (j : Job). j.id) db.jobs
  pub named : All (λ (j : Job). is_empty j.id ≡ false) db.jobs

module _ (user_id : Text) (db : Db) (k : HasPrimaryKey db) where
  pub listed-HaveKeys : HaveKeys (λ (j : Job). j.id) (listed user_id db)
  unfolding listed
  listed-HaveKeys =
      sort_with-HaveKeys _ newer _ (filter-HaveKeys _ (is_listed user_id) db.jobs k.keys)

  pub listed-named : All (λ (j : Job). is_empty j.id ≡ false) (listed user_id db)
  unfolding listed
  listed-named = sort_with-All newer _ _ (All-filter _ (is_listed user_id) db.jobs k.named)

newer_total : (i j : Job) → newer i j ≡ false → newer j i ≡ true
unfolding newer
newer_total i j h = ground (arith, text_leb_total j.id i.id)

newer_trans : (i j k : Job) → newer i j ≡ true → newer j k ≡ true → newer i k ≡ true
unfolding newer
newer_trans i j k h h' = ground (arith, text_leb_trans k.id j.id i.id)

pub newer-IsOrder : IsOrder newer
newer-IsOrder = record { total = newer_total; trans = newer_trans }

-- The rows of the list are the user's live ones, newest first.
pub listed-IsOrdered : (user_id : Text) (db : Db) → IsOrdered newer (listed user_id db)
unfolding listed
listed-IsOrdered user_id db = sort_with-IsOrdered newer newer-IsOrder _

pub listed-perm :
    (user_id : Text) (db : Db) → Perm (listed user_id db) (filter (is_listed user_id) db.jobs)
unfolding listed
listed-perm user_id db = sort_with-perm newer _

pub any-All :
    {A : Type 0} (p : A → Bool) (xs : List A) → any p xs ≡ false → All (λ x. p x ≡ false) xs
unfolding any
any-All p [] h = tt
any-All p (x ∷ xs) h = (ground arith, any-All p xs (ground arith))

-- The row of an id is the only one that has it.
pub only_row :
    (id : Text) (jobs : List Job) (j : Job)
    → HaveKeys (λ (i : Job). i.id) jobs
    → find? (has_id id) jobs ≡ some j
    → All (λ i. i.id ≡ id → i ≡ j) jobs
unfolding find? has_id
only_row id [] j k h = tt
only_row id (x ∷ xs) j k h = elim (Bool-cases (text_eq x.id id)) [
  | inl e ↦
      let own = (text_eq_iff x.id id).0 e in
      let same : some x ≡ some j = rw e at h in
      (λ _. cc same, All-map_of _ _ xs (λ i other mine. absurd (other (mine ∙ sym own))) k.0)
  | inr e ↦
      (λ own. absurd (ground (arith, e, own, text_eq_refl id)), only_row id xs j k.1 (rw e at h))
]
