-- ===== src/Repository/Inserts.antt =====
-- The pages of server/src/jobs/jobs.repository.ts `listScoped` under `createDraft`.
use field_note.Common.{
  ℕ, ◌<◌, ◌≡◌, ap, ◌∙◌, true, false, inl, inr, Option, none, some, [], ◌∷◌, ◌++◌, map, Text,
  is_empty, any, take, All, Bool-cases, arith, sym,
}
use field_note.Result.{ok}
use field_note.Database.{Db, Job, JobWithReport}
use field_note.World.{Services}
use field_note.Repository.{has_id, load, draft, is_taken, create_draft}
use field_note.Repository.Pages.{listed, list_scoped, list_scoped_next}
use field_note.Repository.Newest.{behind-append}

pub untaken :
    (id user_id : Text) (k : Option Text) (db : Db)
    → is_taken id user_id k db ≡ false
    → any (has_id id) db.jobs ≡ false
unfolding is_taken
untaken id user_id none db h = h
untaken id user_id (some k) db h = ground (arith, h)

module _ {C : Type 0} (S : Services C) (user_id c : Text) (limit : ℕ) (db : Db)
    (id owner label key : Text) (idempotency_key : Option Text) (now : ℕ) where
  -- The page behind a listed job is not disturbed by the creation, by anyone, of a job that is newer
  -- than those that there are: neither a job is shown twice nor one is skipped.
  pub list_scoped-create_draft :
      (j : JobWithReport)
      → is_empty c ≡ false
      → any (has_id c) (listed user_id db) ≡ true
      → All (λ (y : Job). y.created_at < now) db.jobs
      → (create_draft id owner label key idempotency_key now db).0 ≡ ok j
      → list_scoped S user_id
          (some c)
          limit
          (create_draft id owner label key idempotency_key now db).1
        ≡ list_scoped S user_id (some c) limit db
  unfolding create_draft draft load
  list_scoped-create_draft j named there recent created =
      elim (Bool-cases (is_taken id owner idempotency_key db)) [
        | inl taken ↦ ground (arith, taken, created)
        | inr free ↦
            let x = draft id owner label key idempotency_key now in
            let (there', same) =
              behind-append user_id db x recent c (untaken id owner idempotency_key db free)
                there in
            rw free (
              list_scoped_next S user_id c limit (record db { jobs = db.jobs ++ x ∷ [] }) named
                there'
              ∙ ap (λ l. ok (map (load db) (take limit l))) same
              ∙ sym (list_scoped_next S user_id c limit db named there))
      ]
