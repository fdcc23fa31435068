-- ===== src/Queue.antt =====
-- server/src/queue/processing-queue.service.ts: the producer of the processing queue.
pub mod Board
use field_note.Common.{Bool, true, false, Option, none, some, Text, if◌then◌else◌}
use field_note.Result.{pure, ◌>>=◌, ◌>>◌}
use field_note.Database.{Db}
use field_note.World.Keeps.{Keeps, Keeps-bind, Keeps-call, Keeps-if, Keeps-pure}
use field_note.World.{Action, call, BullState, ProcessJobData, JobsOptions, Services, Config}

-- state === 'completed' || state === 'failed'
unfoldable pub is_finished : BullState → Bool
is_finished BullState.completed = true
is_finished BullState.failed = true
is_finished _ = false

unfoldable pub job_options : Config → Text → JobsOptions
job_options cfg job_id = record {
  job_id = job_id;
  attempts = cfg.job_max_attempts;
  delay = 5000;
  remove_on_fail = false;
}

module _ {C : Type 0} (S : Services C) (cfg : Config) where
  add_job : ProcessJobData → Action C (Unit {0})
  unfolding job_options
  add_job d = call (S.queue_add d (job_options cfg d.job_id))

  enqueue_beside : ProcessJobData → Option BullState → Action C (Unit {0})
  unfolding add_job is_finished
  enqueue_beside d none = add_job d
  enqueue_beside d (some state) =
      if is_finished state then (do call (S.queue_remove d.job_id); add_job d) else pure tt

  -- enqueueProcessing
  unfoldable pub enqueue_processing : ProcessJobData → Action C (Unit {0})
  unfolding enqueue_beside
  enqueue_processing d = do existing ← call (S.queue_state d.job_id); enqueue_beside d existing

module _ {C : Type 0} (S : Services C) (cfg : Config) where
  enqueue_beside-Keeps :
      (P : Db → Type 0) (d : ProcessJobData) (s : Option BullState)
      → Keeps P (enqueue_beside S cfg d s)
  unfolding enqueue_beside add_job
  enqueue_beside-Keeps P d none = Keeps-call _
  enqueue_beside-Keeps P d (some state) =
      Keeps-if _ _ _ (Keeps-bind _ _ (Keeps-call _) (λ x. Keeps-call _)) (Keeps-pure tt)

  -- The queue is outside of the database.
  pub enqueue_processing-Keeps :
      (P : Db → Type 0) (d : ProcessJobData) → Keeps P (enqueue_processing S cfg d)
  unfolding enqueue_processing
  enqueue_processing-Keeps P d = Keeps-bind _ _ (Keeps-call _) (enqueue_beside-Keeps P d)
