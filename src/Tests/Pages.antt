-- ===== src/Tests/Pages.antt =====
-- The pages of a user's jobs on a concrete table.
use field_note.Common.{
  ℕ, suc, ◌≡◌, refl, ◌≢◌, true, false, none, some, Option, List, [], ◌∷◌, ◌++◌, map, Text, codes,
  length, filter, IsOrdered, arith,
}
use mathlib.Core.List.{Perm}
use field_note.Database.{Job, JobStatus}
use field_note.World.{World}
use field_note.Repository.{load, draft, create_draft}
use field_note.Repository.Pages.{HasPrimaryKey, listed, is_listed, newer, list_scoped}
use field_note.Repository.Inserts.{list_scoped-create_draft}
use field_note.Jobs.Walk.{walk, item, walk_lists_all}
use field_note.Tests.{computed, services, job, db_of}

-- Three jobs of one user, two of them of one time, a deleted one, and another user's.
abbrev row : Text → Text → ℕ → Job
row id user_id time = record (job id user_id JobStatus.created) { created_at = time }

abbrev rows : List Job
rows =
    row (codes "a") (codes "u1") 1
    ∷ row (codes "b") (codes "u1") 5
    ∷ row (codes "c") (codes "u1") 5
    ∷ record (row (codes "d") (codes "u1") 6) { deleted_at = some 7 }
    ∷ row (codes "e") (codes "u2") 4
    ∷ []

abbrev w0 : World ℕ
w0 = record { db = db_of rows; cloud = 7 }

keys : HasPrimaryKey w0.db
keys = record {
  keys = (
    (
      λ e. ground (arith, e),
      (λ e. ground (arith, e), (λ e. ground (arith, e), (λ e. ground (arith, e), tt))),
    ),
    (
      (λ e. ground (arith, e), (λ e. ground (arith, e), (λ e. ground (arith, e), tt))),
      (
        (λ e. ground (arith, e), (λ e. ground (arith, e), tt)),
        ((λ e. ground (arith, e), tt), (tt, tt)),
      ),
    ),
  );
  named = (refl, (refl, (refl, (refl, (refl, tt)))));
}

-- Newest first, and by falling id.
listed_ids :
    map (λ (j : Job). j.id) (listed (codes "u1") w0.db) ≡ codes "c" ∷ codes "b" ∷ codes "a" ∷ []
unfolding computed field_note.Repository.Pages.listed field_note.Common.sort_with
    field_note.Common.text_leb
listed_ids = refl

walk_lists_all_example :
    (walk services (codes "u1") 2 (suc (length (listed (codes "u1") w0.db))) none w0
      ≡ some (map (item w0.db) (listed (codes "u1") w0.db)))
    × Perm (listed (codes "u1") w0.db) (filter (is_listed (codes "u1")) w0.db.jobs)
    × IsOrdered newer (listed (codes "u1") w0.db)
walk_lists_all_example = walk_lists_all services (codes "u1") 2 w0 (omega arith) keys

-- The page behind the second job, when a job is created at 9.
list_scoped-create_draft_example :
    list_scoped services
      (codes "u1")
      (some (codes "b"))
      2
      (create_draft (codes "n") (codes "u1") (codes "New") (codes "k") none 9 w0.db).1
    ≡ list_scoped services (codes "u1") (some (codes "b")) 2 w0.db
unfolding computed field_note.Repository.Pages.listed field_note.Common.sort_with
    field_note.Common.text_leb field_note.Repository.create_draft
list_scoped-create_draft_example =
    list_scoped-create_draft services (codes "u1") (codes "b") 2 w0.db (codes "n") (codes "u1")
      (codes "New") (codes "k") none 9
      (load w0.db (draft (codes "n") (codes "u1") (codes "New") (codes "k") none 9)) refl refl
      (omega arith, (omega arith, (omega arith, (omega arith, (omega arith, tt))))) refl
