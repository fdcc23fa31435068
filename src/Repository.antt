-- ===== src/Repository.antt =====
-- server/src/jobs/jobs.repository.ts: the queries and updates of jobs, report sections, findings
-- and processing events. `now` is the time of the call, which Prisma also writes to `updatedAt`.

pub mod Written
pub mod Report
pub mod Rows
pub mod Others
pub mod Isolation
pub mod Order
pub mod Scoped
pub mod Pages
pub mod Newest
pub mod Inserts
pub mod Served
pub mod Consistent
use field_note.Common.{
  ℕ, ◌+◌, Bool, false, not, ◌&&◌, ◌||◌, Option, none, some, List, [], ◌∷◌, ◌++◌, map, Text, codes,
  text_eq, ◌==◌, is_none, or_else, filter, find?, any, count, length, sort_by, if◌then◌else◌,
}
use field_note.Result.{ErrorKind, error, Result, ok, err, M, gets, modify, throw_if, ◌>>=◌, ◌>>◌}
use field_note.Database.{
  JobStatus, Job, ReportSection, Finding, Stage, EventStatus, Db, ReportFindingInput,
  ReportSectionInput, LoadedSection, JobWithReport,
}

-- Rows by id, and a user's rows that are not soft-deleted.
unfoldable pub has_id : Text → Job → Bool
has_id job_id j = text_eq j.id job_id

unfoldable pub is_scoped : Text → Text → Job → Bool
unfolding has_id
is_scoped user_id job_id j = has_id job_id j && text_eq j.user_id user_id && is_none j.deleted_at

abbrev pub key_is : Text → Option Text → Bool
key_is k none = false
key_is k (some k') = text_eq k' k

of_section : ReportSection → Finding → Bool
of_section s f = f.section_id == s.id

pub of_job : Text → ReportSection → Bool
of_job job_id s = text_eq s.job_id job_id

-- JOB_REPORT_INCLUDE: sections and findings by rising sort order
load_section : Db → ReportSection → LoadedSection
unfolding of_section
load_section db s = record {
  section = s;
  findings = sort_by (λ (f : Finding). f.sort_order) (filter (of_section s) db.findings);
}

unfoldable pub load : Db → Job → JobWithReport
unfolding load_section of_job
load db j = record {
  job = j;
  sections =
      map (load_section db)
        (sort_by (λ (s : ReportSection). s.sort_order) (filter (of_job j.id) db.sections));
}

-- An `update` with a unique `where` fails where no row fits.
update_unique : (Job → Bool) → (Job → Job) → M Db (Unit {0})
update_unique p f db =
    if any p db.jobs
    then (ok tt, record db { jobs = map (λ j. if p j then f j else j) db.jobs })
    else (err (error ErrorKind.record_not_found (codes "Record to update not found.")), db)

pub update_job : Text → (Job → Job) → M Db (Unit {0})
unfolding has_id update_unique
update_job job_id = update_unique (has_id job_id)

-- A transaction that throws leaves nothing behind.
abbrev settle : {A : Type 0} → Result A → Db → Db → Result A × Db
settle (ok a) db db' = (ok a, db')
settle (err e) db db' = (err e, db)

abbrev pub transaction : {A : Type 0} → M Db A → M Db A
transaction m db = let (r, db') = m db in settle r db db'

-- The unique constraints of the table: the primary key, and (userId, idempotencyKey) where the
-- key is not null. Soft-deleted rows count.
unfoldable pub same_key : Text → Text → Job → Bool
same_key user_id k j = text_eq j.user_id user_id && key_is k j.idempotency_key

unfoldable pub is_taken : Text → Text → Option Text → Db → Bool
unfolding has_id same_key
is_taken id user_id none db = any (has_id id) db.jobs
is_taken id user_id (some k) db = any (has_id id) db.jobs || any (same_key user_id k) db.jobs

unfoldable pub draft : Text → Text → Text → Text → Option Text → ℕ → Job
draft id user_id label audio_key idempotency_key now = record {
  id = id;
  user_id = user_id;
  label = label;
  status = JobStatus.created;
  transcript = none;
  audio_key = some audio_key;
  pdf_key = none;
  error_message = none;
  idempotency_key = idempotency_key;
  created_at = now;
  updated_at = now;
  deleted_at = none;
}

-- createDraft, for a user that exists: the foreign key is not checked.
unfoldable pub create_draft : Text → Text → Text → Text → Option Text → ℕ → M Db JobWithReport
unfolding is_taken draft load
create_draft id user_id label audio_key idempotency_key now db =
    let j = draft id user_id label audio_key idempotency_key now in
    let db' = record db { jobs = db.jobs ++ j ∷ [] } in
    if is_taken id user_id idempotency_key db
    then (err (error ErrorKind.unique_violation (codes "Unique constraint failed.")), db)
    else (ok (load db' j), db')

abbrev pub load_some : Db → Option Job → Option JobWithReport
load_some db none = none
load_some db (some j) = some (load db j)

unfoldable pub live_with_key : Text → Text → Job → Bool
unfolding same_key
live_with_key user_id k j = same_key user_id k j && is_none j.deleted_at

unfoldable pub find_by_idempotency_key : Text → Text → Db → Option JobWithReport
unfolding live_with_key load
find_by_idempotency_key user_id k db = load_some db (find? (live_with_key user_id k) db.jobs)

unfoldable pub find_scoped : Text → Text → Db → Option JobWithReport
unfolding is_scoped load
find_scoped user_id job_id db = load_some db (find? (is_scoped user_id job_id) db.jobs)

-- `updateMany`: every row that fits, and how many there were
abbrev pub update_many : (Job → Bool) → (Job → Job) → Db → Db
update_many p f db = record db { jobs = map (λ j. if p j then f j else j) db.jobs }

unfoldable pub update_label_scoped : Text → Text → Text → ℕ → Db → Db
unfolding is_scoped
update_label_scoped user_id job_id label now =
    update_many (is_scoped user_id job_id) (λ j. record j { label = label; updated_at = now })

pub finding_rows : ℕ → ℕ → ℕ → List ReportFindingInput → List Finding
finding_rows section_id id i [] = []
finding_rows section_id id i (f ∷ fs) =
    record {
      id = id;
      section_id = section_id;
      text = f.text;
      severity = f.severity;
      sort_order = i;
    }
    ∷ finding_rows section_id (id + 1) (i + 1) fs

pub section_row : Text → ℕ → ℕ → ReportSectionInput → ReportSection
section_row job_id id s section = record {
  id = id;
  job_id = job_id;
  title = section.title;
  sort_order = s;
}

-- One round of the loop of `insertSections`.
insert_section : Text → ℕ → ReportSectionInput → Db → Db
unfolding finding_rows section_row
insert_section job_id s section db = record db {
  sections = db.sections ++ section_row job_id db.next_id s section ∷ [];
  findings = db.findings ++ finding_rows db.next_id (db.next_id + 1) 0 section.findings;
  next_id = db.next_id + 1 + length section.findings;
}

pub insert_sections : Text → ℕ → List ReportSectionInput → Db → Db
unfolding insert_section
insert_sections job_id s [] db = db
insert_sections job_id s (section ∷ sections) db =
    insert_sections job_id (s + 1) sections (insert_section job_id s section db)

-- finding.deleteMany({ where: { section: { jobId } } }), reportSection.deleteMany({ where: { jobId } })
delete_report : Text → Db → Db
unfolding of_job
delete_report job_id db = record db {
  sections = filter (λ s. not (of_job job_id s)) db.sections;
  findings =
      filter
        (λ (f : Finding).
          not (any (λ (s : ReportSection). of_job job_id s && s.id == f.section_id) db.sections))
        db.findings;
}

unfoldable pub replace_report : Text → List ReportSectionInput → Db → Db
unfolding insert_sections delete_report
replace_report job_id sections db = insert_sections job_id 0 sections (delete_report job_id db)

unfoldable pub has_owner : Text → Text → Job → Bool
unfolding has_id
has_owner user_id job_id j = has_id job_id j && text_eq j.user_id user_id

unfoldable pub replace_report_scoped :
    Text → Text → Option Text → List ReportSectionInput → ℕ → M Db (Unit {0})
unfolding is_scoped replace_report has_owner update_unique
replace_report_scoped user_id job_id label sections now = transaction do
  throw_if (not (any (is_scoped user_id job_id) (← gets (λ db. db.jobs))))
      (error ErrorKind.record_not_found (codes "Job not found"))
  modify (replace_report job_id sections)
  modify (
      update_many (has_owner user_id job_id)
        (λ j. record j { label = or_else label j.label; updated_at = now }))

unfoldable pub soft_delete_scoped : Text → Text → ℕ → Db → ℕ × Db
unfolding is_scoped
soft_delete_scoped user_id job_id now db = (
  count (is_scoped user_id job_id) db.jobs,
  update_many (is_scoped user_id job_id) (λ j. record j { deleted_at = some now; updated_at = now })
      db,
)

-- ── Worker side, by job id ──

unfoldable pub raw_by_id : Text → Db → Option Job
unfolding has_id
raw_by_id job_id db = find? (has_id job_id) db.jobs

unfoldable pub find_by_id : Text → Db → Option JobWithReport
unfolding raw_by_id load
find_by_id job_id db = load_some db (raw_by_id job_id db)

-- `none` leaves the message as it is; `some m` writes `m`, which may be null
unfoldable pub set_status : Text → JobStatus → Option (Option Text) → ℕ → M Db (Unit {0})
unfolding update_job
set_status job_id status error_message now = update_job job_id λ j. record j {
  status = status;
  error_message = or_else error_message j.error_message;
  updated_at = now;
}

unfoldable pub save_transcript : Text → Text → ℕ → M Db (Unit {0})
unfolding update_job
save_transcript job_id transcript now =
    update_job job_id (λ j. record j { transcript = some transcript; updated_at = now })

unfoldable pub set_pdf_ready : Text → Text → ℕ → M Db (Unit {0})
unfolding update_job
set_pdf_ready job_id pdf_key now = update_job job_id λ j. record j {
  pdf_key = some pdf_key;
  status = JobStatus.ready;
  error_message = none;
  updated_at = now;
}

unfoldable pub add_event : Text → Stage → EventStatus → Option Text → Db → Db
add_event job_id stage status message db = record db {
  events =
      db.events
      ++ record { job_id = job_id; stage = stage; status = status; message = message } ∷ [];
}
