-- ===== src/History.antt =====
-- The writes to the jobs and their reports, as single steps: what server/src/jobs/jobs.repository.ts is
-- called with by server/src/jobs/jobs.service.ts and server/src/processing/pipeline/pipeline.service.ts.
-- A history is a sequence of them, whoever makes each: it stands for every interleaving of requests,
-- of runs of the worker, and of what a stage that lost the race with its timer writes later.
pub mod Runs
pub mod Invariant
use field_note.Common.{ℕ, ◌≡◌, true, Option, none, some, List, Text}
use field_note.Database.{Db, JobStatus, Stage, EventStatus, ReportSectionInput}
use field_note.Repository.{
  create_draft, update_label_scoped, replace_report_scoped, soft_delete_scoped, set_status,
  save_transcript, replace_report, set_pdf_ready, add_event,
}
use field_note.Pipeline.{is_stage}

-- Each write, with the statuses that the services set.
pub data Step (db : Db) : Db → Type 0 where
  create :
      (id user_id label key : Text) (k : Option Text) (now : ℕ)
      → Step db (create_draft id user_id label key k now db).1
  label :
      (user_id id label : Text) (now : ℕ) → Step db (update_label_scoped user_id id label now db)
  edit :
      (user_id id : Text) (label : Option Text) (ss : List ReportSectionInput) (now : ℕ)
      → Step db (replace_report_scoped user_id id label ss now db).1
  delete : (user_id id : Text) (now : ℕ) → Step db (soft_delete_scoped user_id id now db).1
  queue : (id : Text) (now : ℕ) → Step db (set_status id JobStatus.queued (some none) now db).1
  enter :
      (id : Text) (s : JobStatus) (now : ℕ)
      → is_stage s ≡ true
      → Step db (set_status id s none now db).1
  transcript : (id t : Text) (now : ℕ) → Step db (save_transcript id t now db).1
  report : (id : Text) (ss : List ReportSectionInput) → Step db (replace_report id ss db)
  publish : (id key : Text) (now : ℕ) → Step db (set_pdf_ready id key now db).1
  fail : (id m : Text) (now : ℕ) → Step db (set_status id JobStatus.failed (some (some m)) now db).1
  event :
      (id : Text) (s : Stage) (st : EventStatus) (m : Option Text)
      → Step db (add_event id s st m db)

pub data History (db : Db) : Db → Type 0 where
  start : History db db
  then : {db' db'' : Db} → History db db' → Step db' db'' → History db db''
