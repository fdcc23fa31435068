-- ===== src/Pipeline.antt =====
-- server/src/processing/pipeline/pipeline.service.ts: transcribe, compile and render one job,
-- skipping what an earlier attempt has done.
pub mod Keeps
pub mod RunStage
pub mod Guards
pub mod Outcome
pub mod Running
pub mod Failure
pub mod Isolation
pub mod Resume
pub mod Counts
pub mod Events
use field_note.Common.{
  ℕ, Bool, true, false, not, ◌||◌, Option, none, some, List, [], ◌∷◌, ◌++◌, map, Text, codes,
  text_eq, trim, take, is_empty, is_some, show_nat, sort_by, if◌then◌else◌,
}
use field_note.Severity.{severity_to_api}
use field_note.Result.{ErrorKind, Error, error, pure, throw, gets, try_catch, ◌>>=◌, ◌>>◌}
use field_note.Database.{
  JobStatus, Job, Finding, Stage, EventStatus, ReportFindingInput, ReportSectionInput,
  LoadedSection, JobWithReport,
}
use field_note.World.{Action, select, write, at_now, ProcessJobData, Timing, Services, Config}
use field_note.Repository.{
  find_by_id, raw_by_id, set_status, save_transcript, replace_report, set_pdf_ready, add_event,
}
use field_note.Media.{pdf_key, pdf_content_type, get_object_stream, put_object}
use field_note.Transcription.{transcribe}
use field_note.Compiler.{compile}
use field_note.Pdf.{ReportView, render}

unfoldable pub is_unrecoverable : ErrorKind → Bool
is_unrecoverable ErrorKind.unrecoverable = true
is_unrecoverable _ = false

-- isPermanent
unfoldable pub is_permanent : Error → Bool
unfolding is_unrecoverable
is_permanent e = e.permanent || is_unrecoverable e.kind

-- message.slice(0, 1000)
abbrev pub trimmed_message : Text → Text
trimmed_message m = take 1000 m

-- The stage names that a StageTimeoutError prints.
stage_name : Stage → Text
stage_name Stage.transcribe = codes "transcribe"
stage_name Stage.compile = codes "compile"
stage_name Stage.render = codes "render"
stage_name Stage.pipeline = codes "pipeline"

unfoldable pub stage_timeout_error : Stage → ℕ → Error
unfolding stage_name
stage_timeout_error stage ms = error ErrorKind.stage_timeout (
    codes "Stage \""
    ++ (stage_name stage ++ (codes "\" exceeded " ++ (show_nat ms ++ codes "ms timeout"))))

-- existingReport: the persisted tree as the compiler would have returned it
unfoldable pub existing_report : JobWithReport → List ReportSectionInput
existing_report job =
    map
      (λ (l : LoadedSection). record {
        title = l.section.title;
        findings =
            map (λ (f : Finding). record { text = f.text; severity = f.severity })
              (sort_by (λ (f : Finding). f.sort_order) l.findings);
      })
      (sort_by (λ (l : LoadedSection). l.section.sort_order) job.sections)

unfoldable pub to_report_view : Text → Text → ℕ → List ReportSectionInput → ReportView
to_report_view job_id label now sections = record {
  job_id = job_id;
  label = label;
  generated_at = now;
  sections =
      map
        (λ (s : ReportSectionInput). record {
          title = s.title;
          findings =
              map
                (λ (f : ReportFindingInput). record {
                  text = f.text;
                  severity = severity_to_api f.severity;
                })
                s.findings;
        })
        sections;
}

-- A transcript that `transcribeStage` reuses.
unfoldable pub usable_transcript : Option Text → Option Text
usable_transcript none = none
usable_transcript (some t) = if is_empty (trim t) then none else some t

-- The statuses that `runStage` is given.
abbrev pub is_stage : JobStatus → Bool
is_stage JobStatus.transcribing = true
is_stage JobStatus.compiling = true
is_stage JobStatus.rendering = true
is_stage _ = false

abbrev pub is_failed : JobStatus → Bool
is_failed JobStatus.failed = true
is_failed _ = false

abbrev pub is_ready : JobStatus → Bool
is_ready JobStatus.ready = true
is_ready _ = false

-- `Promise.race` of a stage's function and the timer: the function goes on by itself if it loses.
-- It has two parts; what had been done when the timer fired stays done.
race : {C X A : Type 0} → Error → Timing → Action C X → (X → Action C A) → Action C A
race e Timing.settles first second = first >>= second
race e Timing.before_first first second = throw e
race e Timing.before_second first second = first >>= λ _. throw e
race e Timing.after_second first second = first >>= second >>= λ _. throw e

pub owner_mismatch : Text → Error
owner_mismatch job_id =
    error ErrorKind.unrecoverable
      (codes "Job " ++ (job_id ++ codes " owner mismatch; refusing to process."))

pub no_audio_key : Text → Error
no_audio_key job_id =
    error ErrorKind.unrecoverable
      (codes "Job " ++ (job_id ++ codes " has no audio key; cannot process."))

-- An unrecoverable error is thrown on as it is, another permanent one is wrapped.
abbrev pub as_unrecoverable : Error → Error
as_unrecoverable e = if is_unrecoverable e.kind then e else error ErrorKind.unrecoverable e.message

module _ {C : Type 0} (S : Services C) (cfg : Config) where
  record_failure : Text → Text → Action C (Unit {0})
  record_failure job_id message = do
    at_now S (set_status job_id JobStatus.failed (some (some (trimmed_message message))))
    write (add_event job_id Stage.pipeline EventStatus.failed (some (trimmed_message message)))

  mark_if_live : Text → Text → Option Job → Action C (Unit {0})
  unfolding record_failure
  mark_if_live job_id message none = pure tt
  mark_if_live job_id message (some j) =
      if is_failed j.status then pure tt else record_failure job_id message

  -- markFailed
  unfoldable pub mark_failed : Text → Text → Action C (Unit {0})
  unfolding mark_if_live
  mark_failed job_id message = do job ← select (raw_by_id job_id); mark_if_live job_id message job

  -- withTimeout
  unfoldable pub with_timeout : {X A : Type 0} → Stage → Action C X → (X → Action C A) → Action C A
  unfolding race
  with_timeout stage first second w =
      race (stage_timeout_error stage cfg.stage_timeout_ms) (S.timing stage w.cloud) first second w

  -- The `try` block of runStage, and its `catch`.
  pub complete_stage : {X A : Type 0} → Text → Stage → Action C X → (X → Action C A) → Action C A
  unfolding with_timeout
  complete_stage job_id stage first second = do
    result ← with_timeout stage first second
    write (add_event job_id stage EventStatus.completed none)
    pure result

  pub fail_stage : {A : Type 0} → Text → Stage → Error → Action C A
  fail_stage job_id stage e = do
    write (add_event job_id stage EventStatus.failed (some (trimmed_message e.message)))
    throw e

  -- runStage
  unfoldable pub run_stage :
      {X A : Type 0} → Text → Stage → JobStatus → Action C X → (X → Action C A) → Action C A
  unfolding complete_stage fail_stage
  run_stage job_id stage status first second = do
    at_now S (set_status job_id status none)
    write (add_event job_id stage EventStatus.started none)
    try_catch (complete_stage job_id stage first second) (fail_stage job_id stage)

  pub stream_and_transcribe : Text → Action C Text
  stream_and_transcribe key = do stream ← get_object_stream S key; transcribe S stream key

  pub keep_transcript : Text → Text → Action C Text
  keep_transcript job_id transcript = do
    at_now S (save_transcript job_id transcript)
    pure transcript

  transcribe_or_reuse : Text → Text → Option Text → Action C Text
  unfolding run_stage stream_and_transcribe keep_transcript
  transcribe_or_reuse job_id audio_key (some t) = pure t
  transcribe_or_reuse job_id audio_key none =
      run_stage job_id Stage.transcribe JobStatus.transcribing (stream_and_transcribe audio_key)
        (keep_transcript job_id)

  unfoldable pub transcribe_stage : Text → Text → Option Text → Action C Text
  unfolding transcribe_or_reuse usable_transcript
  transcribe_stage job_id audio_key existing =
      transcribe_or_reuse job_id audio_key (usable_transcript existing)

  pub keep_report : Text → List ReportSectionInput → Action C (List ReportSectionInput)
  keep_report job_id sections = do write (replace_report job_id sections); pure sections

  unfoldable pub compile_stage :
      Text → Text → Text → List ReportSectionInput → Action C (List ReportSectionInput)
  unfolding run_stage keep_report
  compile_stage job_id label transcript [] =
      run_stage job_id Stage.compile JobStatus.compiling
        (compile S (record { label = label; transcript = transcript })) (keep_report job_id)
  compile_stage job_id label transcript (s ∷ ss) = pure (s ∷ ss)

  pub render_and_put : Text → Text → Text → List ReportSectionInput → Action C Text
  render_and_put job_id user_id label sections = do
    now ← gets (λ w. S.now w.cloud)
    pdf ← render S (to_report_view job_id label now sections)
    put_object S (pdf_key user_id job_id) pdf pdf_content_type
    pure (pdf_key user_id job_id)

  pub publish : Text → Text → Action C (Unit {0})
  publish job_id key = at_now S (set_pdf_ready job_id key)

  unfoldable pub render_stage : Text → Text → Text → List ReportSectionInput → Action C (Unit {0})
  unfolding run_stage render_and_put publish
  render_stage job_id user_id label sections =
      run_stage job_id Stage.render JobStatus.rendering
        (render_and_put job_id user_id label sections) (publish job_id)

  -- The three stages of the `try` block.
  unfoldable pub run_stages : ProcessJobData → JobWithReport → Text → Action C (Unit {0})
  unfolding transcribe_stage compile_stage render_stage
  run_stages d job audio_key = do
    transcript ← transcribe_stage d.job_id audio_key job.transcript
    sections ← compile_stage d.job_id job.label transcript (existing_report job)
    render_stage d.job_id d.user_id job.label sections

  pub on_stage_error : ProcessJobData → Error → Action C (Unit {0})
  unfolding is_permanent mark_failed
  on_stage_error d e =
      if is_permanent e
      then (do mark_failed d.job_id e.message; throw (as_unrecoverable e))
      else throw e

  abbrev pub process_audio : ProcessJobData → JobWithReport → Option Text → Action C (Unit {0})
  process_audio d job none = throw (no_audio_key d.job_id)
  process_audio d job (some key) =
      if is_empty key
      then throw (no_audio_key d.job_id)
      else try_catch (run_stages d job key) (on_stage_error d)

  process_found : ProcessJobData → Option JobWithReport → Action C (Unit {0})
  unfolding run_stages on_stage_error owner_mismatch no_audio_key
  process_found d none = pure tt
  process_found d (some job) =
      if is_some job.deleted_at
      then pure tt
      else if not (text_eq job.user_id d.user_id)
      then throw (owner_mismatch d.job_id)
      else if is_ready job.status
      then pure tt
      else process_audio d job job.audio_key

  unfoldable pub process : ProcessJobData → Action C (Unit {0})
  unfolding process_found
  process d = do job ← select (find_by_id d.job_id); process_found d job
