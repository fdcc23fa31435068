-- ===== src/Pipeline/Keeps.antt =====
-- Properties of the database through a run.
use field_note.Common.{true, refl, ℕ, ◌≡◌, Option, none, some, List, [], ◌∷◌, Text}
use field_note.Result.{try_catch, Error}
use field_note.Database.{Db, JobStatus, Job, Stage, EventStatus, ReportSectionInput, JobWithReport}
use field_note.Repository.{set_status, save_transcript, replace_report, set_pdf_ready, add_event}
use field_note.World.{Action, ProcessJobData, Timing, Services, Config}
use field_note.World.Keeps.{
  Keeps, Keeps-pure, Keeps-throw, Keeps-gets, Keeps-select, Keeps-call, Keeps-at_now, Keeps-write,
  Keeps-bind, Keeps-try_catch, Keeps-if,
}
use field_note.Media.{put_object}
use field_note.Media.Keeps.{get_object_stream-Keeps}
use field_note.Transcription.Keeps.{transcribe-Keeps}
use field_note.Compiler.Keeps.{compile-Keeps}
use field_note.Pdf.{render}
use field_note.Pipeline.{
  is_stage, complete_stage, fail_stage, mark_failed, mark_if_live, race, with_timeout, run_stage,
  transcribe_stage, transcribe_or_reuse, stream_and_transcribe, keep_transcript, compile_stage,
  keep_report, render_stage, render_and_put, publish, run_stages, on_stage_error, process_audio,
  process_found, process, usable_transcript, existing_report,
}

-- The writes of the stages on one job keep `P`; they set no status but the stages' own.
pub record StageWrites (P : Db → Type 0) (job_id : Text) : Type 0 where
  pub status :
      (s : JobStatus) (now : ℕ) (db : Db)
      → is_stage s ≡ true
      → P db
      → P (set_status job_id s none now db).1
  pub transcript : (t : Text) (now : ℕ) (db : Db) → P db → P (save_transcript job_id t now db).1
  pub report : (ss : List ReportSectionInput) (db : Db) → P db → P (replace_report job_id ss db)
  pub pdf : (key : Text) (now : ℕ) (db : Db) → P db → P (set_pdf_ready job_id key now db).1
  pub event :
      (s : Stage) (st : EventStatus) (m : Option Text) (db : Db)
      → P db
      → P (add_event job_id s st m db)

-- So does `markFailed`.
pub record WritesKeep (P : Db → Type 0) (job_id : Text) : Type 0 where
  pub stages : StageWrites P job_id
  pub failure :
      (m : Text) (now : ℕ) (db : Db)
      → P db
      → P (set_status job_id JobStatus.failed (some (some m)) now db).1

race-Keeps :
    {C X A : Type 0} {P : Db → Type 0} (e : Error) (t : Timing) (first : Action C X)
    (second : X → Action C A)
    → Keeps P first
    → ((x : X) → Keeps P (second x))
    → Keeps P (race e t first second)
unfolding race
race-Keeps e Timing.settles first second kf ks = Keeps-bind first second kf ks
race-Keeps e Timing.before_first first second kf ks = Keeps-throw e
race-Keeps e Timing.before_second first second kf ks = Keeps-bind first _ kf (λ _. Keeps-throw e)
race-Keeps e Timing.after_second first second kf ks =
    Keeps-bind _ _ (Keeps-bind first second kf ks) (λ _. Keeps-throw e)

module _ {C : Type 0} (S : Services C) (cfg : Config) {P : Db → Type 0} where
  pub with_timeout-Keeps :
      {X A : Type 0} (stage : Stage) (first : Action C X) (second : X → Action C A)
      → Keeps P first
      → ((x : X) → Keeps P (second x))
      → Keeps P (with_timeout S cfg stage first second)
  unfolding with_timeout
  with_timeout-Keeps stage first second kf ks = record {
    at = λ w h. (race-Keeps _ (S.timing stage w.cloud) first second kf ks).at w h;
  }

  pub stream_and_transcribe-Keeps : (key : Text) → Keeps P (stream_and_transcribe S cfg key)
  unfolding stream_and_transcribe
  stream_and_transcribe-Keeps key =
      Keeps-bind _ _ (get_object_stream-Keeps S key) (λ audio. transcribe-Keeps S audio key)

  pub render_and_put-Keeps :
      (job_id user_id label : Text) (ss : List ReportSectionInput)
      → Keeps P (render_and_put S cfg job_id user_id label ss)
  unfolding render_and_put render put_object
  render_and_put-Keeps job_id user_id label ss =
      Keeps-bind _ _ (Keeps-gets _) λ now.
        Keeps-bind _ _ (Keeps-call _) λ pdf. Keeps-bind _ _ (Keeps-call _) (λ _. Keeps-pure _)

module _ {C : Type 0} (S : Services C) (cfg : Config) {P : Db → Type 0} (job_id : Text)
    (k : StageWrites P job_id) where
  -- The body of a stage, from the entry on.
  pub staged-Keeps :
      {X A : Type 0} (stage : Stage) (first : Action C X) (second : X → Action C A)
      → Keeps P first
      → ((x : X) → Keeps P (second x))
      → Keeps P (
          try_catch
            (complete_stage S cfg job_id stage first second)
            (fail_stage S cfg job_id stage))
  unfolding complete_stage fail_stage
  staged-Keeps stage first second kf ks =
      Keeps-try_catch _ _
        (Keeps-bind _ _ (with_timeout-Keeps S cfg stage first second kf ks)
          λ r. Keeps-bind _ _ (Keeps-write _ (k.event _ _ _)) (λ _. Keeps-pure r))
        (λ e. Keeps-bind _ _ (Keeps-write _ (k.event _ _ _)) (λ _. Keeps-throw e))

  run_stage-Keeps :
      {X A : Type 0} (stage : Stage) (s : JobStatus) (first : Action C X) (second : X → Action C A)
      → is_stage s ≡ true
      → Keeps P first
      → ((x : X) → Keeps P (second x))
      → Keeps P (run_stage S cfg job_id stage s first second)
  unfolding run_stage
  run_stage-Keeps stage s first second own kf ks =
      Keeps-bind _ _ (Keeps-at_now S _ (λ now db. k.status s now db own)) λ _.
        Keeps-bind _ _ (Keeps-write _ (k.event _ _ _)) (λ _. staged-Keeps stage first second kf ks)

  pub keep_transcript-Keeps : (t : Text) → Keeps P (keep_transcript S cfg job_id t)
  unfolding keep_transcript
  keep_transcript-Keeps t = Keeps-bind _ _ (Keeps-at_now S _ (k.transcript t)) (λ _. Keeps-pure t)

  pub keep_report-Keeps : (ss : List ReportSectionInput) → Keeps P (keep_report S cfg job_id ss)
  unfolding keep_report
  keep_report-Keeps ss = Keeps-bind _ _ (Keeps-write _ (k.report ss)) (λ _. Keeps-pure ss)

  pub publish-Keeps : (key : Text) → Keeps P (publish S cfg job_id key)
  unfolding publish
  publish-Keeps key = Keeps-at_now S _ (k.pdf key)

  transcribe_or_reuse-Keeps :
      (key : Text) (t : Option Text) → Keeps P (transcribe_or_reuse S cfg job_id key t)
  unfolding transcribe_or_reuse
  transcribe_or_reuse-Keeps key (some t) = Keeps-pure t
  transcribe_or_reuse-Keeps key none =
      run_stage-Keeps _ _ _ _ refl (stream_and_transcribe-Keeps S cfg key) keep_transcript-Keeps

  pub transcribe_stage-Keeps :
      (key : Text) (t : Option Text) → Keeps P (transcribe_stage S cfg job_id key t)
  unfolding transcribe_stage
  transcribe_stage-Keeps key t = transcribe_or_reuse-Keeps key (usable_transcript t)

  pub compile_stage-Keeps :
      (label transcript : Text) (existing : List ReportSectionInput)
      → Keeps P (compile_stage S cfg job_id label transcript existing)
  unfolding compile_stage
  compile_stage-Keeps label transcript (s ∷ ss) = Keeps-pure _
  compile_stage-Keeps label transcript [] =
      run_stage-Keeps _ _ _ _ refl (compile-Keeps S _) keep_report-Keeps

  render_stage-Keeps :
      (user_id label : Text) (ss : List ReportSectionInput)
      → Keeps P (render_stage S cfg job_id user_id label ss)
  unfolding render_stage
  render_stage-Keeps user_id label ss =
      run_stage-Keeps _ _ _ _ refl (render_and_put-Keeps S cfg job_id user_id label ss)
        publish-Keeps

module _ {C : Type 0} (S : Services C) (cfg : Config) {P : Db → Type 0} (job_id : Text)
    (k : WritesKeep P job_id) where
  mark_if_live-Keeps : (m : Text) (j : Option Job) → Keeps P (mark_if_live S cfg job_id m j)
  unfolding mark_if_live
  mark_if_live-Keeps m none = Keeps-pure tt
  mark_if_live-Keeps m (some j) =
      Keeps-if _ _ _ (Keeps-pure tt) (
        Keeps-bind _ _ (Keeps-at_now S _ (k.failure _)) (λ _. Keeps-write _ (k.stages.event _ _ _)))

  pub mark_failed-Keeps : (m : Text) → Keeps P (mark_failed S cfg job_id m)
  unfolding mark_failed
  mark_failed-Keeps m = Keeps-bind _ _ (Keeps-select _) (mark_if_live-Keeps m)

-- The stages of a payload and the record of its failure keep `P`.
pub record StagesKeep {C : Type 0} (S : Services C) (cfg : Config) (P : Db → Type 0)
    (d : ProcessJobData) : Type 0 where
  pub transcribed : (key : Text) (t : Option Text) → Keeps P (transcribe_stage S cfg d.job_id key t)
  pub compiled :
      (label transcript : Text) (existing : List ReportSectionInput)
      → Keeps P (compile_stage S cfg d.job_id label transcript existing)
  pub rendered :
      (label : Text) (ss : List ReportSectionInput)
      → Keeps P (render_stage S cfg d.job_id d.user_id label ss)
  pub failed : (m : Text) → Keeps P (mark_failed S cfg d.job_id m)

module _ {C : Type 0} (S : Services C) (cfg : Config) {P : Db → Type 0} (d : ProcessJobData)
    (k : StagesKeep S cfg P d) where
  run_stages-Keeps : (job : JobWithReport) (key : Text) → Keeps P (run_stages S cfg d job key)
  unfolding run_stages
  run_stages-Keeps job key =
      Keeps-bind _ _ (k.transcribed key job.transcript)
        λ t. Keeps-bind _ _ (k.compiled job.label t (existing_report job)) (k.rendered job.label)

  on_stage_error-Keeps : (e : Error) → Keeps P (on_stage_error S cfg d e)
  unfolding on_stage_error
  on_stage_error-Keeps e =
      Keeps-if _ _ _ (Keeps-bind _ _ (k.failed e.message) (λ _. Keeps-throw _)) (Keeps-throw e)

  process_audio-Keeps :
      (job : JobWithReport) (key : Option Text) → Keeps P (process_audio S cfg d job key)
  process_audio-Keeps job none = Keeps-throw _
  process_audio-Keeps job (some key) =
      Keeps-if _ _ _ (Keeps-throw _)
        (Keeps-try_catch _ _ (run_stages-Keeps job key) on_stage_error-Keeps)

  process_found-Keeps : (job : Option JobWithReport) → Keeps P (process_found S cfg d job)
  unfolding process_found
  process_found-Keeps none = Keeps-pure tt
  process_found-Keeps (some job) = Keeps-if _ _ _ (Keeps-pure tt) (
      Keeps-if _ _ _ (Keeps-throw _)
        (Keeps-if _ _ _ (Keeps-pure tt) (process_audio-Keeps job job.audio_key)))

  pub process_stages-Keeps : Keeps P (process S cfg d)
  unfolding process
  process_stages-Keeps = Keeps-bind _ _ (Keeps-select _) process_found-Keeps

module _ {C : Type 0} (S : Services C) (cfg : Config) {P : Db → Type 0} (d : ProcessJobData)
    (k : WritesKeep P d.job_id) where
  pub process-Keeps : Keeps P (process S cfg d)
  process-Keeps = process_stages-Keeps S cfg d (record {
    transcribed = transcribe_stage-Keeps S cfg d.job_id k.stages;
    compiled = compile_stage-Keeps S cfg d.job_id k.stages;
    rendered = render_stage-Keeps S cfg d.job_id k.stages d.user_id;
    failed = mark_failed-Keeps S cfg d.job_id k;
  })
