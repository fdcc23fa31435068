-- ===== src/Jobs.antt =====
-- server/src/jobs/jobs.service.ts and job.mapper.ts: the requests of a signed-in user on their
-- jobs; the list of them is in Jobs/Pages.antt.
pub mod Dto
pub mod Owned
pub mod Process
pub mod Remove
pub mod Shown
pub mod Update
pub mod Create
pub mod Isolation
pub mod Keeps
pub mod Writes
pub mod Drafts
pub mod Pages
pub mod Walk
pub mod Requests
use field_note.Common.{
  ℕ, Bool, true, false, not, ◌||◌, Option, none, some, List, [], ◌∷◌, ◌++◌, map, Text, codes,
  is_empty, sort_by, or_else, ◌==◌, if◌then◌else◌,
}
use field_note.Severity.{Severity, ApiSeverity, severity_to_api, severity_from_api}
use field_note.Result.{
  ErrorKind, Error, error, pure, throw, gets, or_throw, try_catch, ◌>>=◌, ◌>>◌, ok,
}
use field_note.Database.{
  JobStatus, Job, Finding, ReportFindingInput, ReportSectionInput, LoadedSection, JobWithReport, Db,
}
use field_note.World.{
  Action, query, select, write, write_now, call, at_now, ProcessJobData, Services, Config,
}
use field_note.Repository.{
  create_draft, find_by_idempotency_key, find_scoped, update_label_scoped, replace_report_scoped,
  soft_delete_scoped, set_status,
}
use field_note.Media.{
  PresignedUpload, audio_key, presign_audio_upload, presign_pdf_download, object_exists,
  delete_objects, PresignedDownload,
}
use field_note.Queue.{enqueue_processing}
use field_note.Pipeline.{is_ready}
use Dto.{
  FindingDto, SectionDto, JobDto, CreateJobResponseDto, UpdateFindingDto, UpdateSectionDto,
  UpdateJobDto, finding_dto, section_dto, job_to_dto,
}

-- IN_FLIGHT
abbrev pub in_flight : JobStatus → Bool
in_flight JobStatus.queued = true
in_flight JobStatus.transcribing = true
in_flight JobStatus.compiling = true
in_flight JobStatus.rendering = true
in_flight _ = false

pub job_not_found : Error
job_not_found = error ErrorKind.not_found (codes "Job not found.")

pub not_uploaded : Error
not_uploaded = error ErrorKind.bad_request (codes "Audio has not been uploaded yet.")

pub pdf_not_ready : Error
pdf_not_ready = error ErrorKind.conflict (codes "PDF is not ready for this job.")

pub update_finding_input : UpdateFindingDto → ReportFindingInput
update_finding_input f = record { text = f.text; severity = severity_from_api f.severity }

unfoldable pub section_input : UpdateSectionDto → ReportSectionInput
unfolding update_finding_input
section_input s = record {
  title = s.title;
  findings = map update_finding_input (sort_by (λ (f : UpdateFindingDto). f.sort_order) s.findings);
}

-- toReportInput
unfoldable pub to_report_input : List UpdateSectionDto → List ReportSectionInput
unfolding section_input
to_report_input sections =
    map section_input (sort_by (λ (s : UpdateSectionDto). s.sort_order) sections)

-- The key of a READY job's PDF: a missing key and an empty one are both falsy.
unfoldable pub ready_key : JobStatus → Option Text → Option Text
ready_key status none = none
ready_key status (some k) = if is_ready status then (if is_empty k then none else some k) else none

-- [job.audioKey, job.pdfKey].filter(Boolean)
unfoldable pub present_keys : Option Text → Option Text → List Text
present_keys none none = []
present_keys none (some p) = if is_empty p then [] else p ∷ []
present_keys (some a) none = if is_empty a then [] else a ∷ []
present_keys (some a) (some p) =
    (if is_empty a then [] else a ∷ []) ++ (if is_empty p then [] else p ∷ [])

module _ {C : Type 0} where
  -- requireOwned
  unfoldable pub require_owned : Text → Text → Action C JobWithReport
  unfolding job_not_found
  require_owned user_id job_id = do
    job ← select (find_scoped user_id job_id)
    or_throw job job_not_found

module _ {C : Type 0} (S : Services C) (cfg : Config) where
  presign_if : Option Text → Action C (Option Text)
  presign_if none = pure none
  presign_if (some k) = do d ← presign_pdf_download S cfg k; pure (some d.url)

  -- maybePdfUrl
  unfoldable pub maybe_pdf_url : JobWithReport → Action C (Option Text)
  unfolding presign_if ready_key
  maybe_pdf_url job = presign_if (ready_key job.status job.pdf_key)

  unfoldable pub find_one : Text → Text → Action C JobDto
  unfolding require_owned maybe_pdf_url job_to_dto
  find_one user_id job_id = do
    job ← require_owned user_id job_id
    url ← maybe_pdf_url job
    pure (job_to_dto job url)

  pub respond : Text → JobWithReport → Text → Action C CreateJobResponseDto
  unfolding job_to_dto
  respond user_id job id = do
    upload ← presign_audio_upload S cfg user_id id
    pure (record { job = job_to_dto job none; audio_upload_url = upload })

  create_new : Text → Text → Option Text → Action C CreateJobResponseDto
  unfolding respond
  create_new user_id label idempotency_key = do
    id ← call (λ c. let (id, c') = S.random_uuid c in (ok id, c'))
    job ← at_now S (create_draft id user_id label (audio_key user_id id) idempotency_key)
    respond user_id job id

  replay_or_create : Text → Text → Text → Option JobWithReport → Action C CreateJobResponseDto
  unfolding create_new respond
  replay_or_create user_id label k none = create_new user_id label (some k)
  replay_or_create user_id label k (some existing) = respond user_id existing existing.id

  replay_or_new : Text → Text → Text → Action C CreateJobResponseDto
  unfolding replay_or_create
  replay_or_new user_id label k = do
    existing ← select (find_by_idempotency_key user_id k)
    replay_or_create user_id label k existing

  -- create: a null key and an empty one skip the lookup
  unfoldable pub create : Text → Text → Option Text → Action C CreateJobResponseDto
  unfolding replay_or_new create_new
  create user_id label none = create_new user_id label none
  create user_id label (some k) =
      if is_empty k then create_new user_id label (some k) else replay_or_new user_id label k

  apply_label : Text → Text → Option Text → Action C (Unit {0})
  apply_label user_id job_id none = pure tt
  apply_label user_id job_id (some label) = write_now S (update_label_scoped user_id job_id label)

  apply_update : Text → Text → UpdateJobDto → Option (List UpdateSectionDto) → Action C (Unit {0})
  unfolding to_report_input apply_label
  apply_update user_id job_id dto (some sections) =
      at_now S (replace_report_scoped user_id job_id dto.label (to_report_input sections))
  apply_update user_id job_id dto none = apply_label user_id job_id dto.label

  unfoldable pub update : Text → Text → UpdateJobDto → Action C JobDto
  unfolding require_owned apply_update find_one
  update user_id job_id dto = do
    require_owned user_id job_id
    apply_update user_id job_id dto dto.sections
    find_one user_id job_id

  -- The part of `process` that starts the pipeline.
  pub start : Text → Text → JobWithReport → Action C JobDto
  unfolding job_to_dto
  start user_id job_id job = do
    at_now S (set_status job_id JobStatus.queued (some none))
    enqueue_processing S cfg (record { job_id = job_id; user_id = user_id })
    refreshed ← select (find_scoped user_id job_id)
    pure (job_to_dto (or_else refreshed job) none)

  start_if : Text → Text → JobWithReport → Bool → Action C JobDto
  unfolding start not_uploaded
  start_if user_id job_id job uploaded =
      if not uploaded then throw not_uploaded else start user_id job_id job

  pub start_checked : Text → Text → JobWithReport → Action C JobDto
  unfolding start_if
  start_checked user_id job_id job = do
    uploaded ← object_exists S (or_else job.audio_key (audio_key user_id job_id))
    start_if user_id job_id job uploaded

  pub process_owned : Text → Text → JobWithReport → Action C JobDto
  unfolding maybe_pdf_url job_to_dto start_checked
  process_owned user_id job_id job =
      if is_ready job.status
      then (do url ← maybe_pdf_url job; pure (job_to_dto job url))
      else if in_flight job.status
      then pure (job_to_dto job none)
      else start_checked user_id job_id job

  unfoldable pub process : Text → Text → Action C JobDto
  unfolding require_owned process_owned
  process user_id job_id = do job ← require_owned user_id job_id; process_owned user_id job_id job

  -- getPdfUrl
  unfoldable pub get_pdf_url : Text → Text → Action C PresignedDownload
  unfolding require_owned ready_key pdf_not_ready
  get_pdf_url user_id job_id = do
    job ← require_owned user_id job_id
    key ← or_throw (ready_key job.status job.pdf_key) pdf_not_ready
    presign_pdf_download S cfg key

module _ {C : Type 0} (S : Services C) where
  pub remove_objects : JobWithReport → Action C (Unit {0})
  unfolding present_keys
  remove_objects job =
      try_catch (delete_objects S (present_keys job.audio_key job.pdf_key)) (λ e. pure tt)

  unfoldable pub remove : Text → Text → Action C (Unit {0})
  unfolding require_owned remove_objects job_not_found
  remove user_id job_id = do
    job ← require_owned user_id job_id
    count ←
        at_now S (λ now db. let (n, db') = soft_delete_scoped user_id job_id now db in (ok n, db'))
    if count == 0 then throw job_not_found else remove_objects job
