-- ===== src/Pipeline/RunStage.antt =====
-- The parts of a stage that returns.
use field_note.Common.{◌≡◌, refl, ap, ◌∙◌, sym, none, Text}
use field_note.Result.{Error, ok, throw, try_catch, ◌>>=◌}
use field_note.Database.{JobStatus, Stage, EventStatus}
use field_note.Repository.{set_status, add_event}
use field_note.World.{World, Action, at_now, Timing, Services, Config}
use field_note.World.Returns.{
  Throws, throw-Throws, bind_ok, bind-Throws, try_ok, write-pure, write_then, at_now_world,
  at_now_then,
}
use field_note.Pipeline.{
  complete_stage, fail_stage, race, with_timeout, run_stage, stage_timeout_error,
}

race_ok :
    {C X A : Type 0} (e : Error) (t : Timing) (first : Action C X) (second : X → Action C A)
    (w : World C) (a : A)
    → (race e t first second w).0 ≡ ok a
    → race e t first second w ≡ (first >>= second) w
unfolding race
race_ok e Timing.settles first second w a h = refl
race_ok e Timing.before_first first second w a h = absurd (throw-Throws e w a h)
race_ok e Timing.before_second first second w a h =
    absurd (bind-Throws first (λ _. throw e) (λ _. throw-Throws e) w a h)
race_ok e Timing.after_second first second w a h =
    absurd (bind-Throws (first >>= second) (λ _. throw e) (λ _. throw-Throws e) w a h)

fail_stage-Throws :
    {C A : Type 0} (S : Services C) (cfg : Config) (job_id : Text) (stage : Stage) (e : Error)
    → Throws (fail_stage S cfg {A = A} job_id stage e)
unfolding fail_stage
fail_stage-Throws S cfg job_id stage e = bind-Throws _ _ (λ _. throw-Throws e)

module _ {C X A : Type 0} (S : Services C) (cfg : Config) (job_id : Text) (stage : Stage)
    (s : JobStatus) (first : Action C X) (second : X → Action C A) where
  -- The world in which the stage's function runs.
  unfoldable pub entered : World C → World C
  entered w = record w {
    db =
        add_event job_id stage EventStatus.started none
          (set_status job_id s none (S.now w.cloud) w.db).1;
  }

  complete_stage_ok :
      (w : World C) (a : A)
      → (complete_stage S cfg job_id stage first second w).0 ≡ ok a
      → let w' = (first >>= second) w in
        (w'.0 ≡ ok a)
        × ((complete_stage S cfg job_id stage first second w).1.db
            ≡ add_event job_id stage EventStatus.completed none w'.1.db)
  unfolding complete_stage with_timeout
  complete_stage_ok w a h =
      let (x, e, p) = bind_ok _ _ w a h in
      let q =
        race_ok (stage_timeout_error stage cfg.stage_timeout_ms) (S.timing stage w.cloud) first
          second w x e in
      let r = p ∙ write-pure _ x (with_timeout S cfg stage first second w).1 in
      (
        ap (λ z. z.0) (sym q) ∙ e ∙ sym (ap (λ z. z.0) r) ∙ h,
        ap (λ z. z.1.db) r ∙ ap (λ z. add_event job_id stage EventStatus.completed none z.1.db) q,
      )

  pub run_stage_ok :
      (w : World C) (a : A)
      → (run_stage S cfg job_id stage s first second w).0 ≡ ok a
      → let w' = (first >>= second) (entered w) in
        (w'.0 ≡ ok a)
        × ((run_stage S cfg job_id stage s first second w).1.db
            ≡ add_event job_id stage EventStatus.completed none w'.1.db)
  unfolding run_stage entered
  run_stage_ok w a h =
      let (u, e, p) = bind_ok _ _ w a h in
      let r =
        p
        ∙ write_then _
            (try_catch (complete_stage S cfg job_id stage first second)
              (fail_stage S cfg job_id stage))
            (at_now S (set_status job_id s none) w).1
        ∙ ap
            (λ (z : World C).
              try_catch (complete_stage S cfg job_id stage first second)
                (fail_stage S cfg job_id stage)
                (record z { db = add_event job_id stage EventStatus.started none z.db }))
            (at_now_world S (set_status job_id s none) w) in
      let (e', q) =
        try_ok (complete_stage S cfg job_id stage first second) (fail_stage S cfg job_id stage)
          (entered w) a (fail_stage-Throws S cfg job_id stage) (rw r at h) in
      let (e'', q') = complete_stage_ok (entered w) a e' in (e'', ap (λ z. z.1.db) (r ∙ q) ∙ q')

  -- Where the status can be set, the stage's `try` block runs from there.
  pub run_stage_at :
      (w : World C)
      → (set_status job_id s none (S.now w.cloud) w.db).0 ≡ ok tt
      → run_stage S cfg job_id stage s first second w
        ≡ try_catch
            (complete_stage S cfg job_id stage first second)
            (fail_stage S cfg job_id stage)
            (entered w)
  unfolding run_stage entered
  run_stage_at w e =
      at_now_then S (set_status job_id s none) _ w tt e
      ∙ write_then (add_event job_id stage EventStatus.started none) _ _
