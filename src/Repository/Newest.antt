-- ===== src/Repository/Newest.antt =====
-- server/src/jobs/jobs.repository.ts: the pages of a list to which a newer job is added.
use field_note.Common.{
  ◌<◌, ◌≡◌, refl, true, false, [], ◌∷◌, ◌++◌, Text, text_eq, filter, any, All, if◌then◌else◌, arith,
  Bool-cases, inl, inr, sort_with-All, All-filter, text_eq_iff, any_none, sort_with-first,
  All-map_of, filter-append,
}
use mathlib.Core.List.{append-nil}
use field_note.Repository.Pages.{newer, listed, is_listed, behind, any-All}
use field_note.Database.{Db, Job}
use field_note.Repository.{has_id}

older-newer : (y x : Job) → y.created_at < x.created_at → newer y x ≡ false
unfolding newer
older-newer y x h = ground arith

module _ (user_id : Text) (db : Db) (x : Job)
    (recent : All (λ (y : Job). y.created_at < x.created_at) db.jobs) where
  -- A row that is newer than all the others is listed first, if it is listed at all.
  listed-append :
      listed user_id (record db { jobs = db.jobs ++ x ∷ [] })
      ≡ (if is_listed user_id x then x ∷ listed user_id db else listed user_id db)
  unfolding listed filter
  listed-append =
      let rest = filter (is_listed user_id) db.jobs in
      let first = sort_with-first newer rest x (
        All-filter (λ y. newer y x ≡ false) (is_listed user_id) db.jobs
          (All-map_of _ _ db.jobs (λ y. older-newer y x) recent)) in
      elim (Bool-cases (is_listed user_id x)) [
        | inl e ↦ rw (filter-append (is_listed user_id) db.jobs (x ∷ []), e) first
        | inr e ↦ rw (filter-append (is_listed user_id) db.jobs (x ∷ []), e, append-nil) refl
      ]

  new-behind :
      (c : Text)
      → any (has_id x.id) db.jobs ≡ false
      → any (has_id c) (listed user_id db) ≡ true
      → has_id c x ≡ false
  unfolding has_id
  new-behind c fresh there =
      let absent : any (has_id x.id) (listed user_id db) ≡ false =
        unfold listed in
        any_none _ _ (
          sort_with-All newer _ _
            (All-filter _ (is_listed user_id) db.jobs (any-All _ db.jobs fresh))) in
      elim (Bool-cases (text_eq x.id c)) [
        | inr e ↦ e
        | inl e ↦
            absurd (let same = (text_eq_iff x.id c).0 e in ground (arith, rw same at absent, there))
      ]

  -- The rows behind a listed one stay what they were.
  pub behind-append :
      (c : Text)
      → any (has_id x.id) db.jobs ≡ false
      → any (has_id c) (listed user_id db) ≡ true
      → (any (has_id c) (listed user_id (record db { jobs = db.jobs ++ x ∷ [] })) ≡ true)
        × (behind c (listed user_id (record db { jobs = db.jobs ++ x ∷ [] }))
            ≡ behind c (listed user_id db))
  unfolding behind any
  behind-append c fresh there =
      let other = new-behind c fresh there in
      rw listed-append (elim (Bool-cases (is_listed user_id x)) [
        | inl e ↦ rw (e, other) (there, refl)
        | inr e ↦ rw e (there, refl)
      ])
