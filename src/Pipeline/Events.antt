-- ===== src/Pipeline/Events.antt =====
-- The events of server/src/processing/pipeline/pipeline.service.ts: a stage that has started is
-- recorded as completed or as failed.
use field_note.Common.{◌≢◌, Option, none, some, List, [], ◌∷◌, Text}
use field_note.Result.{Result, ok, err, pure, throw, continue, try_catch, ◌>>=◌, ◌>>◌}
use field_note.Database.{
  Db, Job, JobStatus, Stage, EventStatus, ProcessingEvent, ReportSectionInput,
}
use field_note.Repository.{set_status, add_event}
use field_note.Repository.Report.{events-replace_report}
use field_note.Repository.Rows.{set_status-events, save_transcript-events, set_pdf_ready-events}
use field_note.World.{World, Action, write, at_now, ProcessJobData, Services, Config}
use field_note.World.Keeps.{
  Keeps, Keeps-bind, Keeps-if, Keeps-pure, Keeps-at_now, Keeps-write, Keeps-select,
}
use field_note.Pipeline.Keeps.{
  process_stages-Keeps, with_timeout-Keeps, stream_and_transcribe-Keeps, render_and_put-Keeps,
}
use field_note.Compiler.Keeps.{compile-Keeps}
use field_note.Pipeline.{
  complete_stage, fail_stage, run_stage, with_timeout, transcribe_stage, transcribe_or_reuse,
  keep_transcript, compile_stage, keep_report, render_stage, publish, mark_failed, mark_if_live,
  process, usable_transcript, record_failure,
}
use field_note.Pipeline.Counts.{
  AreOpen, ArePaired, completed_closes, failed_closes, none_open, one_of, started_opens,
}

-- A property of the events, of a database.
abbrev On : (List ProcessingEvent → Type 0) → Db → Type 0
On P db = P db.events

module _ {C : Type 0} (S : Services C) (cfg : Config) (id : Text) (s : Stage) (job_id : Text)
    (stage : Stage) where
  abbrev Open : Db → Type 0
  Open = On (AreOpen (one_of id s job_id stage) id s)

  abbrev Paired : Db → Type 0
  Paired = On (ArePaired id s)

  -- However the stage's function ends, its end is recorded.
  stage_closes :
      {A : Type 0} (r : Result A) (w : World C)
      → Open w.db
      → Paired
          (try_catch
            ((λ v. (r, w)) >>= λ a.
              write (add_event job_id stage EventStatus.completed none) >> pure a)
            (fail_stage S cfg job_id stage)
            w).1.db
  unfolding try_catch ◌>>=◌ write pure throw fail_stage
  stage_closes (ok a) w h = completed_closes id s job_id stage none w.db h
  stage_closes (err e) w h = failed_closes id s job_id stage _ w.db h

  module _ {X A : Type 0} (first : Action C X) (second : X → Action C A) (kf : Keeps Open first)
      (ks : (x : X) → Keeps Open (second x)) where
    body_closes :
        (w : World C)
        → Open w.db
        → Paired
            (try_catch
              (complete_stage S cfg job_id stage first second)
              (fail_stage S cfg job_id stage)
              w).1.db
    unfolding complete_stage try_catch ◌>>=◌
    body_closes w h =
        let w' = with_timeout S cfg stage first second w in
        stage_closes w'.0 w'.1 ((with_timeout-Keeps S cfg stage first second kf ks).at w h)

    entry_pairs :
        (r : Result (Unit {0})) (w : World C)
        → Paired w.db
        → Paired
            (continue r
              (λ _.
                write (add_event job_id stage EventStatus.started none)
                >> try_catch
                    (complete_stage S cfg job_id stage first second)
                    (fail_stage S cfg job_id stage))
              w).1.db
    unfolding ◌>>=◌ write
    entry_pairs (ok u) w h = body_closes _ (started_opens id s job_id stage none w.db h)
    entry_pairs (err e) w h = h

    run_stage-Paired :
        (status : JobStatus) → Keeps Paired (run_stage S cfg job_id stage status first second)
    unfolding run_stage at_now ◌>>=◌
    run_stage-Paired status = record {
      at = λ w h.
          entry_pairs (set_status job_id status none (S.now w.cloud) w.db).0 _
            (rw (set_status-events job_id w.db (S.now w.cloud) status none) h);
    }

-- The parts of the stages write no event.
module _ {C : Type 0} (S : Services C) (cfg : Config) (job_id : Text)
    (P : List ProcessingEvent → Type 0) where
  keep_transcript-On : (t : Text) → Keeps (On P) (keep_transcript S cfg job_id t)
  unfolding keep_transcript
  keep_transcript-On t =
      Keeps-bind _ _ (Keeps-at_now S _ (λ now db h. rw (save_transcript-events job_id db now t) h))
        (λ _. Keeps-pure t)

  keep_report-On : (ss : List ReportSectionInput) → Keeps (On P) (keep_report S cfg job_id ss)
  unfolding keep_report
  keep_report-On ss =
      Keeps-bind _ _ (Keeps-write _ (λ db h. rw (events-replace_report job_id ss db) h))
        (λ _. Keeps-pure ss)

  publish-On : (key : Text) → Keeps (On P) (publish S cfg job_id key)
  unfolding publish
  publish-On key = Keeps-at_now S _ (λ now db h. rw (set_pdf_ready-events job_id db now key) h)

module _ {C : Type 0} (S : Services C) (cfg : Config) (id : Text) (s : Stage) (job_id : Text) where
  transcribe_or_reuse-Paired :
      (key : Text) (t : Option Text)
      → Keeps (On (ArePaired id s)) (transcribe_or_reuse S cfg job_id key t)
  unfolding transcribe_or_reuse
  transcribe_or_reuse-Paired key (some t) = Keeps-pure t
  transcribe_or_reuse-Paired key none =
      run_stage-Paired S cfg id s job_id Stage.transcribe _ _
        (stream_and_transcribe-Keeps S cfg key) (keep_transcript-On S cfg job_id _) _

  transcribe_stage-Paired :
      (key : Text) (t : Option Text)
      → Keeps (On (ArePaired id s)) (transcribe_stage S cfg job_id key t)
  unfolding transcribe_stage
  transcribe_stage-Paired key t = transcribe_or_reuse-Paired key (usable_transcript t)

  compile_stage-Paired :
      (label transcript : Text) (existing : List ReportSectionInput)
      → Keeps (On (ArePaired id s)) (compile_stage S cfg job_id label transcript existing)
  unfolding compile_stage
  compile_stage-Paired label transcript (x ∷ xs) = Keeps-pure _
  compile_stage-Paired label transcript [] =
      run_stage-Paired S cfg id s job_id Stage.compile _ _ (compile-Keeps S _)
        (keep_report-On S cfg job_id _) _

  render_stage-Paired :
      (user_id label : Text) (ss : List ReportSectionInput)
      → Keeps (On (ArePaired id s)) (render_stage S cfg job_id user_id label ss)
  unfolding render_stage
  render_stage-Paired user_id label ss =
      run_stage-Paired S cfg id s job_id Stage.render _ _
        (render_and_put-Keeps S cfg job_id user_id label ss) (publish-On S cfg job_id _) _

  mark_if_live-Paired :
      s ≢ Stage.pipeline
      → (m : Text) (j : Option Job) → Keeps (On (ArePaired id s)) (mark_if_live S cfg job_id m j)
  unfolding mark_if_live record_failure
  mark_if_live-Paired ne m none = Keeps-pure tt
  mark_if_live-Paired ne m (some j) = Keeps-if _ _ _ (Keeps-pure tt) (
      Keeps-bind _ _ (Keeps-at_now S _ (λ now db h. rw (set_status-events job_id db now _ _) h))
        (λ _. Keeps-write _ (λ db h.
          failed_closes id s job_id Stage.pipeline _ db (rw (none_open id s job_id ne) h))))

  mark_failed-Paired :
      s ≢ Stage.pipeline → (m : Text) → Keeps (On (ArePaired id s)) (mark_failed S cfg job_id m)
  unfolding mark_failed
  mark_failed-Paired ne m = Keeps-bind _ _ (Keeps-select _) (mark_if_live-Paired ne m)

-- If the `started` events of a job's stage are as many as its `completed` and `failed` ones, they are
-- so after a run on any job, however it ends and whenever the timers fire: whatever a run has
-- recorded as started it records as ended.
pub process-ArePaired :
    {C : Type 0} (S : Services C) (cfg : Config) (d : ProcessJobData) (w : World C) (id : Text)
    (s : Stage)
    → s ≢ Stage.pipeline
    → ArePaired id s w.db.events
    → ArePaired id s (process S cfg d w).1.db.events
process-ArePaired S cfg d w id s ne h =
    (process_stages-Keeps S cfg d (record {
      transcribed = transcribe_stage-Paired S cfg id s d.job_id;
      compiled = compile_stage-Paired S cfg id s d.job_id;
      rendered = render_stage-Paired S cfg id s d.job_id d.user_id;
      failed = mark_failed-Paired S cfg id s d.job_id ne;
    })).at
      w h
