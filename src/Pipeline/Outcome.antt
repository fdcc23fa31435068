-- ===== src/Pipeline/Outcome.antt =====
-- What a run that returns leaves.
use field_note.Common.{
  ◌≡◌, refl, ap, ◌∙◌, sym, ◌⊎◌, inl, inr, Bool-cases, Option, none, some, List, Text, is_empty,
  text_eq, text_eq_iff, arith,
}
use field_note.Result.{Error, ok, ◌>>=◌}
use field_note.Database.{Db, JobStatus, Job, Stage, EventStatus, ReportSectionInput, JobWithReport}
use field_note.Repository.{raw_by_id, add_event, load}
use field_note.Repository.Rows.{
  set_status-Updates, save_transcript-Updates, set_pdf_ready-Updates, raw_by_id-add_event,
  raw_by_id-replace_report,
}
use field_note.World.{World, at_now, ProcessJobData, Services, Config}
use field_note.World.Returns.{Throws, throw-Throws, bind_ok, bind-Throws, try_ok, pure_ok}
use field_note.Media.{pdf_key}
use field_note.Pipeline.{
  render_stage, render_and_put, publish, run_stages, on_stage_error, process_audio, process,
  existing_report, is_ready, is_permanent,
}
use field_note.Pipeline.Keeps.{
  StageWrites, render_and_put-Keeps, transcribe_stage-Keeps, compile_stage-Keeps,
}
use field_note.Pipeline.Guards.{process-owner_mismatch, process_ready, process_runs, is_ready_iff}
use field_note.Pipeline.RunStage.{run_stage_ok, entered}

-- The job has a row.
abbrev pub Present : Text → Db → Type 0
Present id db = (j : Job) × (raw_by_id id db ≡ some j)

pub Present-StageWrites : (id : Text) → StageWrites (Present id) id
Present-StageWrites id = record {
  status = λ s now db own (j, h). (_, (set_status-Updates id now db j h s none).1);
  transcript = λ t now db (j, h). (_, (save_transcript-Updates id now db j h t).1);
  report = λ ss db (j, h). (j, raw_by_id-replace_report id id ss db ∙ h);
  pdf = λ key now db (j, h). (_, (set_pdf_ready-Updates id now db j h key).1);
  event = λ s st m db (j, h). (j, raw_by_id-add_event id id s st m db ∙ h);
}

-- The row that a finished run leaves: READY, with its document, and no error message.
pub record IsPublished (d : ProcessJobData) (db : Db) : Type 0 where
  pub row : Job
  pub found : raw_by_id d.job_id db ≡ some row
  pub is_ready : row.status ≡ JobStatus.ready
  pub has_pdf : row.pdf_key ≡ some (pdf_key d.user_id d.job_id)
  pub no_error : row.error_message ≡ none

module _ {C : Type 0} (S : Services C) (cfg : Config) (d : ProcessJobData) where
  render_and_put_key :
      (label : Text) (ss : List ReportSectionInput) (w : World C) (key : Text)
      → (render_and_put S cfg d.job_id d.user_id label ss w).0 ≡ ok key
      → key ≡ pdf_key d.user_id d.job_id
  unfolding render_and_put
  render_and_put_key label ss w key h =
      let (now, e0, p0) = bind_ok _ _ w key h in
      let h0 = rw p0 at h in
      let (pdf, e1, p1) = bind_ok _ _ _ key h0 in
      let h1 = rw p1 at h0 in
      let (u, e2, p2) = bind_ok _ _ _ key h1 in sym (pure_ok _ key _ (rw p2 at h1))

  publish-IsPublished :
      (w : World C)
      → Present d.job_id w.db
      → IsPublished d (publish S cfg d.job_id (pdf_key d.user_id d.job_id) w).1.db
  unfolding publish at_now
  publish-IsPublished w (j, h) = record {
    row = _;
    found =
        (set_pdf_ready-Updates d.job_id (S.now w.cloud) w.db j h (pdf_key d.user_id d.job_id)).1;
    is_ready = refl;
    has_pdf = refl;
    no_error = refl;
  }

  IsPublished-add_event :
      (s : Stage) (st : EventStatus) (m : Option Text) (db : Db)
      → IsPublished d db
      → IsPublished d (add_event d.job_id s st m db)
  IsPublished-add_event s st m db p = record {
    row = p.row;
    found = raw_by_id-add_event d.job_id d.job_id s st m db ∙ p.found;
    is_ready = p.is_ready;
    has_pdf = p.has_pdf;
    no_error = p.no_error;
  }

  render_stage_publishes :
      (label : Text) (ss : List ReportSectionInput) (w : World C)
      → Present d.job_id w.db
      → (render_stage S cfg d.job_id d.user_id label ss w).0 ≡ ok tt
      → IsPublished d (render_stage S cfg d.job_id d.user_id label ss w).1.db
  unfolding render_stage
  render_stage_publishes label ss w present h =
      let first = render_and_put S cfg d.job_id d.user_id label ss in
      let second = publish S cfg d.job_id in
      let w' = entered S cfg d.job_id Stage.render JobStatus.rendering first second w in
      let (e, p) =
        run_stage_ok S cfg d.job_id Stage.render JobStatus.rendering first second w tt h in
      let (key, e', p') = bind_ok first second w' tt e in
      let k = Present-StageWrites d.job_id in
      let present' : Present d.job_id w'.db =
        unfold entered in k.event _ _ _ _ (k.status _ _ _ refl present) in
      let present'' =
        (render_and_put-Keeps S cfg {P = Present d.job_id} d.job_id d.user_id label ss).at w'
          present' in
      let published : IsPublished d (second key (first w').1).1.db =
        rw (render_and_put_key label ss w' key e') (publish-IsPublished (first w').1 present'') in
      let done : IsPublished d ((first >>= second) w').1.db = rw p' published in
      rw p (IsPublished-add_event Stage.render EventStatus.completed none _ done)

  on_stage_error-Throws : (e : Error) → Throws (on_stage_error S cfg d e)
  unfolding on_stage_error
  on_stage_error-Throws e = elim (Bool-cases (is_permanent e)) [
    | inl p ↦ rw p (bind-Throws _ _ (λ _. throw-Throws _))
    | inr p ↦ rw p (throw-Throws e)
  ]

  run_stages_publishes :
      (job : JobWithReport) (key : Text) (w : World C)
      → Present d.job_id w.db
      → (run_stages S cfg d job key w).0 ≡ ok tt
      → IsPublished d (run_stages S cfg d job key w).1.db
  unfolding run_stages
  run_stages_publishes job key w present h =
      let k = Present-StageWrites d.job_id in
      let (t, e0, p0) = bind_ok _ _ w tt h in
      let h0 = rw p0 at h in
      let present0 = (transcribe_stage-Keeps S cfg d.job_id k key job.transcript).at w present in
      let (ss, e1, p1) = bind_ok _ _ _ tt h0 in
      let present1 =
        (compile_stage-Keeps S cfg d.job_id k job.label t (existing_report job)).at _ present0 in
      rw (p0, p1) (render_stage_publishes job.label ss _ present1 (rw p1 at h0))

  process_audio_publishes :
      (job : JobWithReport) (key : Option Text) (w : World C)
      → Present d.job_id w.db
      → (process_audio S cfg d job key w).0 ≡ ok tt
      → IsPublished d (process_audio S cfg d job key w).1.db
  process_audio_publishes job none w present h = absurd (throw-Throws _ w tt h)
  process_audio_publishes job (some key) w present h = elim (Bool-cases (is_empty key)) [
    | inl e ↦ absurd (throw-Throws _ w tt (rw e at h))
    | inr e ↦
        let (h', p) =
          try_ok (run_stages S cfg d job key) (on_stage_error S cfg d) w tt on_stage_error-Throws
            (rw e at h) in
        rw (e, p) (run_stages_publishes job key w present h')
  ]

  pub process-IsPublished :
      (w : World C) (j : Job)
      → raw_by_id d.job_id w.db ≡ some j
      → j.deleted_at ≡ none
      → (process S cfg d w).0 ≡ ok tt
      → ((j.status ≡ JobStatus.ready) × (process S cfg d w ≡ (ok tt, w)))
        ⊎ IsPublished d (process S cfg d w).1.db
  process-IsPublished w j found live h = elim (Bool-cases (text_eq j.user_id d.user_id)) [
    | inr other ↦
        let refused =
          process-owner_mismatch S cfg d w j found live
            λ e. ground (arith, text_eq_iff j.user_id d.user_id) in
        cc (ap (λ z. z.0) refused)
    | inl own ↦
        let owned = (text_eq_iff j.user_id d.user_id).0 own in
        elim (Bool-cases (is_ready j.status)) [
          | inl ready ↦
              inl (is_ready_iff j.status ready, process_ready S cfg d w j found live owned ready)
          | inr unready ↦
              let runs = process_runs S cfg d w j found live owned unready in
              inr (
                rw runs
                  (process_audio_publishes (load w.db j) j.audio_key w (j, found) (rw runs at h)))
        ]
  ]
