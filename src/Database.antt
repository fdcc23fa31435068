-- ===== src/Database.antt =====
-- The tables of server/prisma/schema.prisma as the services read and write them, and the report
-- tree of server/src/jobs/report.types.ts. A table is the list of its rows; row ids of sections
-- and findings, which the database generates, are numbers handed out by `next_id`.
use field_note.Common.{ℕ, Text, Option, List}
use field_note.Severity.{Severity}

pub data JobStatus : Type 0 where
  created uploading queued transcribing compiling rendering ready failed : JobStatus

pub record User : Type 0 where
  pub id : Text
  pub apple_sub : Text
  pub email : Option Text

pub record RefreshToken : Type 0 where
  pub user_id : Text
  pub token_hash : Text
  pub expires_at : ℕ
  pub revoked_at : Option ℕ
  pub replaced_by_token_hash : Option Text

pub record Job : Type 0 where
  pub id : Text
  pub user_id : Text
  pub label : Text
  pub status : JobStatus
  pub transcript : Option Text
  pub audio_key : Option Text
  pub pdf_key : Option Text
  pub error_message : Option Text
  pub idempotency_key : Option Text
  pub created_at : ℕ
  pub updated_at : ℕ
  pub deleted_at : Option ℕ

pub record ReportSection : Type 0 where
  pub id : ℕ
  pub job_id : Text
  pub title : Text
  pub sort_order : ℕ

pub record Finding : Type 0 where
  pub id : ℕ
  pub section_id : ℕ
  pub text : Text
  pub severity : Severity
  pub sort_order : ℕ

-- The stage names of `STAGE`, and the name that `markFailed` records.
pub data Stage : Type 0 where
  transcribe compile render pipeline : Stage

pub data EventStatus : Type 0 where
  started completed failed : EventStatus

pub record ProcessingEvent : Type 0 where
  pub job_id : Text
  pub stage : Stage
  pub status : EventStatus
  pub message : Option Text

pub record Db : Type 0 where
  pub users : List User
  pub refresh_tokens : List RefreshToken
  pub jobs : List Job
  pub sections : List ReportSection
  pub findings : List Finding
  pub events : List ProcessingEvent
  pub next_id : ℕ

-- report.types.ts
pub record ReportFindingInput : Type 0 where
  pub text : Text
  pub severity : Severity

pub record ReportSectionInput : Type 0 where
  pub title : Text
  pub findings : List ReportFindingInput

-- `JobWithReport`: a job loaded with its sections and their findings.
pub record LoadedSection : Type 0 where
  pub section : ReportSection
  pub findings : List Finding

pub record JobWithReport : Type 0 where
  pub job : Job
  pub open job use *
  pub sections : List LoadedSection
