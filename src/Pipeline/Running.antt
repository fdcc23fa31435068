-- ===== src/Pipeline/Running.antt =====
-- The status of a job whose run threw inside a stage: server/src/processing/pipeline/pipeline.service.ts.
use field_note.Common.{
  ◌≡◌, refl, ◌∙◌, Bool, true, ◌||◌, Option, none, some, List, [], ◌∷◌, Text, arith,
}
use field_note.Result.{Error, err}
use field_note.Database.{Db, JobStatus, Job, Stage, EventStatus, ReportSectionInput}
use field_note.Repository.{raw_by_id, set_status}
use field_note.Repository.Rows.{
  set_status-Updates, save_transcript-Updates, set_pdf_ready-Updates, raw_by_id-add_event,
  raw_by_id-replace_report,
}
use field_note.World.{World, Action, Services, Config}
use field_note.World.Keeps.{Keeps}
use field_note.World.Returns.{pure-returns}
use field_note.Compiler.Keeps.{compile-Keeps}
use field_note.Pipeline.{
  is_stage, run_stage, render_stage, transcribe_stage, transcribe_or_reuse, compile_stage, is_ready,
  usable_transcript,
}
use field_note.Pipeline.Keeps.{
  StageWrites, staged-Keeps, render_and_put-Keeps, stream_and_transcribe-Keeps,
  keep_transcript-Keeps, keep_report-Keeps, publish-Keeps,
}
use field_note.Pipeline.RunStage.{entered, run_stage_at}
use field_note.Pipeline.Outcome.{Present}

-- In a stage; READY counts, since the timer may fire after the publication.
abbrev pub is_running : JobStatus → Bool
is_running s = is_stage s || is_ready s

abbrev pub Running : Text → Db → Type 0
Running id db = (j : Job) × (raw_by_id id db ≡ some j) × (is_running j.status ≡ true)

Running-StageWrites : (id : Text) → StageWrites (Running id) id
Running-StageWrites id = record {
  status = λ s now db own (j, h, r). (_, (set_status-Updates id now db j h s none).1, ground arith);
  transcript = λ t now db (j, h, r). (_, (save_transcript-Updates id now db j h t).1, r);
  report = λ ss db (j, h, r). (j, raw_by_id-replace_report id id ss db ∙ h, r);
  pdf = λ key now db (j, h, r). (_, (set_pdf_ready-Updates id now db j h key).1, refl);
  event = λ s st m db (j, h, r). (j, raw_by_id-add_event id id s st m db ∙ h, r);
}

module _ {C : Type 0} (S : Services C) (cfg : Config) (id : Text) where
  -- From the entry on, however it ends, the job is in a stage.
  run_stage_runs :
      {X A : Type 0} (stage : Stage) (s : JobStatus) (first : Action C X) (second : X → Action C A)
      (w : World C)
      → is_stage s ≡ true
      → Keeps (Running id) first
      → ((x : X) → Keeps (Running id) (second x))
      → Present id w.db
      → Running id (run_stage S cfg id stage s first second w).1.db
  unfolding run_stage
  run_stage_runs stage s first second w own kf ks (j, h) =
      let k = Running-StageWrites id in
      let (e, found) = set_status-Updates id (S.now w.cloud) w.db j h s none in
      let entered_db : Running id (set_status id s none (S.now w.cloud) w.db).1 =
        (_, found, ground arith) in
      rw (run_stage_at S cfg id stage s first second w e) (
        (staged-Keeps S cfg id k stage first second kf ks).at _
          (unfold entered in k.event stage EventStatus.started none _ entered_db))

  pub transcribe_stage_runs :
      (key : Text) (t : Option Text) (w : World C) (e : Error)
      → Present id w.db
      → (transcribe_stage S cfg id key t w).0 ≡ err e
      → Running id (transcribe_stage S cfg id key t w).1.db
  unfolding transcribe_stage
  transcribe_stage_runs key t w e present h = go (usable_transcript t) h
    where
      go :
          (o : Option Text)
          → (transcribe_or_reuse S cfg id key o w).0 ≡ err e
          → Running id (transcribe_or_reuse S cfg id key o w).1.db
      go (some x) g = absurd (pure-returns x w e g)
      go none g =
          run_stage_runs Stage.transcribe JobStatus.transcribing _ _ w refl
            (stream_and_transcribe-Keeps S cfg key)
            (keep_transcript-Keeps S cfg id (Running-StageWrites id)) present

  pub compile_stage_runs :
      (label t : Text) (ss : List ReportSectionInput) (w : World C) (e : Error)
      → Present id w.db
      → (compile_stage S cfg id label t ss w).0 ≡ err e
      → Running id (compile_stage S cfg id label t ss w).1.db
  unfolding compile_stage
  compile_stage_runs label t (x ∷ xs) w e present h = absurd (pure-returns (x ∷ xs) w e h)
  compile_stage_runs label t [] w e present h =
      run_stage_runs Stage.compile JobStatus.compiling _ _ w refl (compile-Keeps S _)
        (keep_report-Keeps S cfg id (Running-StageWrites id)) present

  pub render_stage_runs :
      (user_id label : Text) (ss : List ReportSectionInput) (w : World C)
      → Present id w.db
      → Running id (render_stage S cfg id user_id label ss w).1.db
  unfolding render_stage
  render_stage_runs user_id label ss w present =
      run_stage_runs Stage.render JobStatus.rendering _ _ w refl
        (render_and_put-Keeps S cfg id user_id label ss)
        (publish-Keeps S cfg id (Running-StageWrites id)) present
