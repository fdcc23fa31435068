-- ===== src/Http/Jobs.antt =====
-- server/src/jobs/jobs.controller.ts: the routes of the jobs.
use field_note.Common.{ℕ, Bool, Option, none, some, Text, codes, trim, is_empty, if◌then◌else◌}
use field_note.Result.{ErrorKind, Error, error, pure, throw, ◌>>=◌, ◌>>◌}
use field_note.World.{Action, Services, Config}
use field_note.Media.{PresignedDownload}
use field_note.Tokens.{AuthConfig}
use field_note.Http.Guard.{GuardServices, authenticate}
use field_note.Jobs.Dto.{JobDto, CreateJobResponseDto, UpdateJobDto}
use field_note.Jobs.Pages.{JobPage, list}
use field_note.Jobs.{create, find_one, update, process, get_pdf_url, remove}

-- A request by its route; `limit` is 20 where the query has none, and from 1 to 100.
pub data JobsRequest : Type 0 where
  get_jobs : Option Text → ℕ → JobsRequest
  post_job : Text → Option Text → JobsRequest
  get_job : Text → JobsRequest
  patch_job : Text → UpdateJobDto → JobsRequest
  post_process : Text → JobsRequest
  get_pdf : Text → JobsRequest
  delete_job : Text → JobsRequest

pub data JobsAnswer : Type 0 where
  page : JobPage → JobsAnswer
  created : CreateJobResponseDto → JobsAnswer
  job : JobDto → JobsAnswer
  pdf_url : PresignedDownload → JobsAnswer
  no_content : JobsAnswer

pub not_uuid : Error
not_uuid = error ErrorKind.bad_request (codes "Validation failed (uuid is expected)")

-- idempotencyKey?.trim() || null
unfoldable pub trimmed_key : Option Text → Option Text
trimmed_key none = none
trimmed_key (some k) = if is_empty (trim k) then none else some (trim k)

module _ {C : Type 0} (is_uuid : Text → Bool) where
  -- ParseUUIDPipe
  abbrev pub with_uuid : Text → Action C JobsAnswer → Action C JobsAnswer
  with_uuid id m = if is_uuid id then m else throw not_uuid

module _ {C : Type 0} (S : Services C) (cfg : Config) (is_uuid : Text → Bool) where
  unfoldable pub dispatch : Text → JobsRequest → Action C JobsAnswer
  unfolding trimmed_key not_uuid
  dispatch user_id (JobsRequest.get_jobs cursor limit) = do
    p ← list S user_id cursor limit
    pure (JobsAnswer.page p)
  dispatch user_id (JobsRequest.post_job label key) = do
    r ← create S cfg user_id label (trimmed_key key)
    pure (JobsAnswer.created r)
  dispatch user_id (JobsRequest.get_job id) =
      with_uuid is_uuid id do j ← find_one S cfg user_id id; pure (JobsAnswer.job j)
  dispatch user_id (JobsRequest.patch_job id dto) =
      with_uuid is_uuid id do j ← update S cfg user_id id dto; pure (JobsAnswer.job j)
  dispatch user_id (JobsRequest.post_process id) =
      with_uuid is_uuid id do j ← process S cfg user_id id; pure (JobsAnswer.job j)
  dispatch user_id (JobsRequest.get_pdf id) =
      with_uuid is_uuid id do d ← get_pdf_url S cfg user_id id; pure (JobsAnswer.pdf_url d)
  dispatch user_id (JobsRequest.delete_job id) =
      with_uuid is_uuid id do remove S user_id id; pure JobsAnswer.no_content

  -- A request with its authorization header: the guard, then the handler, for the token's user.
  unfoldable pub handle_request :
      GuardServices C → AuthConfig → Option Text → JobsRequest → Action C JobsAnswer
  unfolding dispatch authenticate
  handle_request G auth header request = do
    user ← authenticate G auth header
    dispatch user.user_id request
