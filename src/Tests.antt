-- ===== src/Tests.antt =====
-- Concrete services, rows and databases for the tests.
mod Reports
mod Runs
mod Requests
mod Sessions
mod Server
mod Attempts
mod Pages
mod Http
mod Providers
mod Histories
mod Rendering
use field_note.Common.{ℕ, ◌+◌, Option, none, some, List, [], ◌∷◌, ◌++◌, Text, codes}
use field_note.Severity.{Severity, ApiSeverity}
use field_note.Result.{ErrorKind, Error, error, ok, err, Result, M}
use field_note.Database.{
  Job, JobStatus, ReportSection, Finding, Db, ReportFindingInput, ReportSectionInput,
}
use field_note.World.{
  World, Services, Config, ProcessJobData, Json, Items, Fields, Timing, BullState, Bytes, Issue,
}

abbrev pub cfg : Config
cfg = record {
  presign_put_ttl = 900;
  presign_get_ttl = 300;
  stage_timeout_ms = 1000;
  job_max_attempts = 3;
}

-- The answer of the compiler: one section with one finding.
abbrev pub compiled : Json
compiled = Json.object (
    Fields.field (codes "sections")
      (Json.array (
        Items.cons
          (Json.object (
            Fields.field (codes "title") (Json.string (codes " Roof ")) (
              Fields.field (codes "findings")
                (Json.array (
                  Items.cons
                    (Json.object (
                      Fields.field (codes "text") (Json.string (codes "Leak")) (
                        Fields.field (codes "severity") (Json.string (codes "repair")) Fields.end)))
                    Items.nil))
                Fields.end)))
          Items.nil))
      Fields.end)

abbrev pub done : {A : Type 0} → A → M ℕ A
done a c = (ok a, c)

abbrev pub fails : {A : Type 0} → Text → M ℕ A
fails message c = (err (error ErrorKind.plain message), c)

-- The outside is its clock. Everything succeeds.
abbrev pub services : Services ℕ
services = record {
  now = λ c. c;
  random_uuid = λ c. (codes "new", c);
  head_object = λ key. done tt;
  get_object = λ key. done (some (1 ∷ []));
  put_object = λ key body content_type. done tt;
  delete_objects = λ keys. done tt;
  signed_put_url = λ key content_type ttl. done key;
  signed_get_url = λ key ttl. done key;
  queue_state = λ job_id. done none;
  queue_remove = λ job_id. done tt;
  queue_add = λ payload options. done tt;
  dlq_add = λ failed. done tt;
  transcription_provider = λ stream key. done (codes "The roof leaks.");
  compiler_provider = λ input hint. done compiled;
  zod_issues = λ j. record { path = []; message = codes "Invalid" } ∷ [];
  print_pdf = λ html. done (1 ∷ []);
  stray_cursor = λ cursor rows. ok [];
  timing = λ stage c. Timing.settles;
}

abbrev pub job : Text → Text → JobStatus → Job
job id user_id status = record {
  id = id;
  user_id = user_id;
  label = codes "House";
  status = status;
  transcript = none;
  audio_key = some (codes "a");
  pdf_key = none;
  error_message = none;
  idempotency_key = some (codes "k");
  created_at = 1;
  updated_at = 1;
  deleted_at = none;
}

abbrev pub db_of : List Job → Db
db_of jobs = record {
  users = [];
  refresh_tokens = [];
  jobs = jobs;
  sections = record { id = 1; job_id = codes "j2"; title = codes "Old"; sort_order = 0 } ∷ [];
  findings =
      record {
        id = 2;
        section_id = 1;
        text = codes "Crack";
        severity = Severity.info;
        sort_order = 0;
      }
      ∷ [];
  events = [];
  next_id = 3;
}

-- Two users with a job each; the first one's has the given status.
abbrev pub world_of : JobStatus → World ℕ
world_of status = record {
  db =
      db_of (
        job (codes "j1") (codes "u1") status
        ∷ job (codes "j2") (codes "u2") JobStatus.created
        ∷ []);
  cloud = 7;
}

abbrev pub payload : ProcessJobData
payload = record { job_id = codes "j1"; user_id = codes "u1" }

abbrev pub report : List ReportSectionInput
report =
    record {
      title = codes "Roof";
      findings = record { text = codes "Leak"; severity = Severity.repair } ∷ [];
    }
    ∷ []

-- Opens the services, to compute a concrete run.
unfoldable pub computed : {A : Type 0} → A → A
unfolding field_note.World.run field_note.Result.modify field_note.Result.throw_if
    field_note.Common.find? field_note.Common.text_eq field_note.Common.any field_note.Common.filter
    field_note.Common.count field_note.Common.sort_by field_note.Common.trim
    field_note.Common.is_space field_note.Severity.read_severity field_note.Severity.word
    field_note.Severity.severity_from_api field_note.Media.audio_key field_note.Media.pdf_key
    field_note.Media.object_exists field_note.Media.get_object_stream field_note.Media.put_object
    field_note.Media.presign_audio_upload field_note.Media.presign_pdf_download
    field_note.Media.delete_objects field_note.Transcription.transcribe field_note.Compiler.compile
    field_note.Compiler.normalize field_note.Compiler.normal_section field_note.Compiler.rank
    field_note.Compiler.to_input field_note.Compiler.Schema.parse_report
    field_note.Compiler.Schema.parse_section field_note.Compiler.Schema.parse_finding
    field_note.Compiler.Schema.array_of field_note.Compiler.Schema.each
    field_note.Compiler.Schema.severity_word field_note.Compiler.Schema.trimmed_string
    field_note.Compiler.Schema.property field_note.Compiler.Schema.get_field
    field_note.Repository.has_id field_note.Repository.is_scoped field_note.Repository.load
    field_note.Repository.raw_by_id field_note.Repository.find_by_id
    field_note.Repository.find_scoped field_note.Repository.set_status
    field_note.Repository.save_transcript field_note.Repository.set_pdf_ready
    field_note.Repository.add_event field_note.Repository.replace_report
    field_note.Repository.is_taken field_note.Repository.same_key
    field_note.Repository.live_with_key field_note.Repository.draft
    field_note.Repository.create_draft field_note.Repository.find_by_idempotency_key
    field_note.Pipeline.process field_note.Pipeline.run_stages field_note.Pipeline.run_stage
    field_note.Pipeline.transcribe_stage field_note.Pipeline.compile_stage
    field_note.Pipeline.render_stage field_note.Pipeline.existing_report
    field_note.Pipeline.usable_transcript field_note.Pipeline.to_report_view field_note.Pdf.render
computed a = a
