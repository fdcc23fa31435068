-- ===== src/Pipeline/Failure.antt =====
-- What a run that throws leaves.
use field_note.Common.{
  take, ◌≡◌, refl, ap, ◌∙◌, sym, ◌⊎◌, inl, inr, true, false, Bool-cases, some, Text, is_empty,
  arith,
}
use field_note.Result.{Error, ok, err}
use field_note.Database.{Db, JobStatus, Job, JobWithReport}
use field_note.Repository.{raw_by_id, load}
use field_note.Repository.Rows.{set_status-Updates, raw_by_id-add_event}
use field_note.World.{World, run, ProcessJobData, Services, Config}
use field_note.World.Returns.{bind_err, try_err, err_inj, throw_world, then_throw}
use field_note.Pipeline.{
  is_unrecoverable, is_permanent, trimmed_message, as_unrecoverable, mark_failed, mark_if_live,
  is_failed, run_stages, on_stage_error, process_audio, process, existing_report, is_ready,
}
use field_note.Pipeline.Keeps.{transcribe_stage-Keeps, compile_stage-Keeps}
use field_note.Pipeline.Guards.{IsRunnable, process_runs}
use field_note.Pipeline.Outcome.{Present, Present-StageWrites}
use field_note.Pipeline.Running.{
  Running, compile_stage_runs, is_running, render_stage_runs, transcribe_stage_runs,
}

-- The row that a permanent failure leaves.
pub record IsFailed (id : Text) (message : Text) (db : Db) : Type 0 where
  pub row : Job
  pub found : raw_by_id id db ≡ some row
  pub is_failed : row.status ≡ JobStatus.failed
  pub has_message : row.error_message ≡ some (take 1000 message)

module _ {C : Type 0} (S : Services C) (cfg : Config) (id : Text) where
  -- On a job that is there and not FAILED yet, markFailed returns and leaves it FAILED with the
  -- message, cut to 1000 characters.
  pub mark_failed-IsFailed :
      (m : Text) (w : World C) (j : Job)
      → raw_by_id id w.db ≡ some j
      → is_failed j.status ≡ false
      → ((mark_failed S cfg id m w).0 ≡ ok tt) × IsFailed id m (mark_failed S cfg id m w).1.db
  unfolding mark_failed run
  mark_failed-IsFailed m w j h live =
      let (e, found) =
        set_status-Updates id (S.now w.cloud) w.db j h JobStatus.failed
          (some (some (trimmed_message m))) in
      rw (h, mark_if_live, live, e)
        (
          refl,
          record {
            row = _;
            found = raw_by_id-add_event id id _ _ _ _ ∙ found;
            is_failed = refl;
            has_message = refl;
          },
        )

  -- A job that is FAILED is left alone.
  pub mark_failed_again :
      (m : Text) (w : World C) (j : Job)
      → raw_by_id id w.db ≡ some j
      → is_failed j.status ≡ true
      → mark_failed S cfg id m w ≡ (ok tt, w)
  unfolding mark_failed run
  mark_failed_again m w j h dead = rw (h, mark_if_live, dead) refl

module _ {C : Type 0} (S : Services C) (cfg : Config) (d : ProcessJobData) where
  run_stages-Running :
      (job : JobWithReport) (key : Text) (w : World C) (e : Error)
      → Present d.job_id w.db
      → (run_stages S cfg d job key w).0 ≡ err e
      → Running d.job_id (run_stages S cfg d job key w).1.db
  unfolding run_stages
  run_stages-Running job key w e present h =
      let k = Present-StageWrites d.job_id in
      elim (bind_err _ _ w e h) [
        | inl (e0, p0) ↦
            rw p0 (transcribe_stage_runs S cfg d.job_id key job.transcript w e present e0)
        | inr (t, e0, p0) ↦
            let present0 =
              (transcribe_stage-Keeps S cfg d.job_id k key job.transcript).at w present in
            elim (bind_err _ _ _ e (rw p0 at h)) [
              | inl (e1, p1) ↦
                  rw (p0, p1)
                    (compile_stage_runs S cfg d.job_id job.label t (existing_report job) _ e
                      present0 e1)
              | inr (ss, e1, p1) ↦
                  rw (p0, p1)
                    (render_stage_runs S cfg d.job_id d.user_id job.label ss _ (
                      (compile_stage-Keeps S cfg d.job_id k job.label t (existing_report job)).at _
                        present0))
            ]
      ]

pub running_not_failed : (s : JobStatus) → is_running s ≡ true → is_failed s ≡ false
running_not_failed s h = ground arith

as_unrecoverable-kind : (e : Error) → is_unrecoverable (as_unrecoverable e).kind ≡ true
unfolding is_unrecoverable
as_unrecoverable-kind e = ground arith

as_unrecoverable-message : (e : Error) → (as_unrecoverable e).message ≡ e.message
as_unrecoverable-message e = ground arith

-- How a run that threw has ended: FAILED with the message of an unrecoverable error, or still in
-- its stage with an error that BullMQ may retry.
abbrev pub Ended : Text → Error → Db → Type 0
Ended id e db =
    ((is_unrecoverable e.kind ≡ true) × IsFailed id e.message db)
    ⊎ ((is_permanent e ≡ false) × Running id db)

module _ {C : Type 0} (S : Services C) (cfg : Config) (d : ProcessJobData) where
  on_stage_error-Ended :
      (x : Error) (w : World C) (e : Error)
      → Running d.job_id w.db
      → (on_stage_error S cfg d x w).0 ≡ err e
      → Ended d.job_id e (on_stage_error S cfg d x w).1.db
  unfolding on_stage_error
  on_stage_error-Ended x w e (j, found, running) h = elim (Bool-cases (is_permanent x)) [
    | inr transient ↦
        let same : x ≡ e =
          err_inj x e (sym (ap (λ z. z.0) (throw_world x w)) ∙ (rw transient at h)) in
        rw (transient, throw_world) (inr (rw (← same) transient, (j, found, running)))
    | inl permanent ↦
        let (marked, failed) =
          mark_failed-IsFailed S cfg d.job_id x.message w j found
            (running_not_failed j.status running) in
        let p =
          then_throw (mark_failed S cfg d.job_id x.message) (as_unrecoverable x) w tt marked in
        let same : as_unrecoverable x ≡ e =
          err_inj (as_unrecoverable x) e (sym (ap (λ z. z.0) p) ∙ (rw permanent at h)) in
        rw (permanent, p)
          (inl (
            rw (← same) (as_unrecoverable-kind x),
            rw (← same) (rw (as_unrecoverable-message x) failed),
          ))
  ]

  process_audio-Ended :
      (job : JobWithReport) (key : Text) (w : World C) (e : Error)
      → is_empty key ≡ false
      → Present d.job_id w.db
      → (process_audio S cfg d job (some key) w).0 ≡ err e
      → Ended d.job_id e (process_audio S cfg d job (some key) w).1.db
  process_audio-Ended job key w e named present h =
      let (x, e0, p) =
        try_err (run_stages S cfg d job key) (on_stage_error S cfg d) w e (rw named at h) in
      let running = run_stages-Running S cfg d job key w x present e0 in
      rw (named, p) (on_stage_error-Ended x _ e running (ap (λ z. z.0) (sym p) ∙ (rw named at h)))

  -- A run that throws, on a live job of the payload's user that is not READY and has an audio key:
  -- either the error is unrecoverable, and the job is FAILED with the error's message, cut to 1000
  -- characters; or the error is not permanent, and the job is in a stage (or READY, where the
  -- timer fired after the publication), never FAILED.
  pub process-Ended :
      (w : World C) (j : Job) (key : Text) (e : Error)
      → IsRunnable d w.db j
      → j.audio_key ≡ some key
      → is_empty key ≡ false
      → (process S cfg d w).0 ≡ err e
      → Ended d.job_id e (process S cfg d w).1.db
  process-Ended w j key e r has_key named h =
      let unready : is_ready j.status ≡ false = ground (arith, r.unfinished) in
      let p = process_runs S cfg d w j r.found r.live r.owned unready in
      let q : process S cfg d w ≡ process_audio S cfg d (load w.db j) (some key) w =
        p ∙ rw has_key refl in
      rw q (process_audio-Ended (load w.db j) key w e named (j, r.found) (rw q at h))
