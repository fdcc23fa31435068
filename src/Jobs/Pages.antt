-- ===== src/Jobs/Pages.antt =====
-- server/src/jobs/jobs.service.ts: `list`, one page of a user's jobs, and the walk of a client that
-- follows the cursors.
use field_note.Common.{
  ℕ, Option, none, some, List, [], ◌∷◌, map, Text, codes, length, ◌==◌, if◌then◌else◌,
}
use field_note.Result.{ErrorKind, Error, error, pure, throw, ◌>>=◌}
use field_note.Database.{JobWithReport}
use field_note.World.{Action, query, Services}
use field_note.Repository.Pages.{list_scoped}
use field_note.Jobs.Dto.{JobDto, job_to_dto}

-- PaginatedDto of server/src/common/dto/pagination.dto.ts
pub record JobPage : Type 0 where
  pub items : List JobDto
  pub next_cursor : Option Text

-- Reading the id of jobs[-1], which is undefined.
type_error : Error
type_error = error ErrorKind.plain (codes "Cannot read properties of undefined (reading 'id')")

-- jobs[jobs.length - 1].id
unfoldable pub last_id : List JobWithReport → Option Text
last_id [] = none
last_id (j ∷ []) = some j.id
last_id (j ∷ k ∷ js) = last_id (k ∷ js)

module _ {C : Type 0} (S : Services C) where
  unfoldable pub cursor_of : Option Text → Action C (Option Text)
  unfolding type_error
  cursor_of none = throw type_error
  cursor_of (some id) = pure (some id)

  unfoldable pub next_cursor : ℕ → List JobWithReport → Action C (Option Text)
  unfolding last_id cursor_of
  next_cursor limit jobs = if length jobs == limit then cursor_of (last_id jobs) else pure none

  unfoldable pub list : Text → Option Text → ℕ → Action C JobPage
  unfolding list_scoped next_cursor job_to_dto
  list user_id cursor limit = do
    jobs ← query (λ db. (list_scoped S user_id cursor limit db, db))
    next ← next_cursor limit jobs
    pure (record { items = map (λ j. job_to_dto j none) jobs; next_cursor = next })
