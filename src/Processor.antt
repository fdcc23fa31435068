-- ===== src/Processor.antt =====
-- server/src/processing/worker/processing.processor.ts: what the worker does with a job and with
-- the failure of one. Starting and closing the worker is left out.
pub mod Eligible
pub mod Retry
use field_note.Common.{
  ℕ, ◌≡◌, refl, ap, Bool, true, false, ◌||◌, Option, none, some, codes, text_eq, leb, if◌then◌else◌,
  Text,
}
use field_note.Result.{ErrorKind, Error, Result, ok, err, pure, try_catch, ◌>>=◌, ◌>>◌, handle}
use field_note.Database.{Job, Db}
use field_note.Pipeline.Keeps.{WritesKeep, mark_failed-Keeps}
use field_note.World.Keeps.{Keeps, Keeps-bind, Keeps-call, Keeps-pure, Keeps-if, Keeps-try_catch}
use field_note.World.{World, Action, call, ProcessJobData, Services, Config}
use field_note.Repository.{raw_by_id}
use field_note.Pipeline.{is_failed, mark_failed, process}
use field_note.Pipeline.Failure.{IsFailed, mark_failed-IsFailed}

-- A BullMQ job as the `failed` event passes it; `attempts` is what its options say, if they do.
pub record BullJob : Type 0 where
  pub payload : ProcessJobData
  pub attempts_made : ℕ
  pub attempts : Option ℕ

-- job.opts.attempts ?? 1
abbrev pub max_attempts : Option ℕ → ℕ
max_attempts none = 1
max_attempts (some n) = n

-- err instanceof UnrecoverableError || err.name === 'UnrecoverableError'
unfoldable pub named_unrecoverable : ErrorKind → Bool
named_unrecoverable ErrorKind.unrecoverable = true
named_unrecoverable (ErrorKind.external name status) = text_eq name (codes "UnrecoverableError")
named_unrecoverable _ = false

unfoldable pub is_terminal : BullJob → Error → Bool
unfolding named_unrecoverable
is_terminal job e = named_unrecoverable e.kind || leb (max_attempts job.attempts) job.attempts_made

module _ {C : Type 0} (S : Services C) (cfg : Config) where
  -- The worker's function.
  abbrev pub work : BullJob → Action C (Unit {0})
  work job = process S cfg job.payload

  park : BullJob → Error → Action C (Unit {0})
  park job e = call (
      S.dlq_add (record {
        job_id = job.payload.job_id;
        user_id = job.payload.user_id;
        error = e.message;
        attempts_made = job.attempts_made;
      }))

  record_terminal : BullJob → Error → Action C (Unit {0})
  unfolding park
  record_terminal job e = do mark_failed S cfg job.payload.job_id e.message; park job e

  -- handleFailure
  unfoldable pub handle_failure : Option BullJob → Error → Action C (Unit {0})
  unfolding is_terminal record_terminal
  handle_failure none e = pure tt
  handle_failure (some job) e =
      if is_terminal job e then try_catch (record_terminal job e) (λ x. pure tt) else pure tt

  swallowed_db : (r : Result (Unit {0})) (w : World C) → (handle r (λ x. pure tt) w) ≡ (ok tt, w)
  unfolding pure
  swallowed_db (ok tt) w = refl
  swallowed_db (err e) w = refl

  -- The record of a terminal failure never throws, and its effect on the database is markFailed's,
  -- whether the job could be parked or not.
  pub handle_failure_recorded :
      (job : BullJob) (e : Error) (w : World C)
      → is_terminal job e ≡ true
      → (mark_failed S cfg job.payload.job_id e.message w).0 ≡ ok tt
      → ((handle_failure (some job) e w).0 ≡ ok tt)
        × ((handle_failure (some job) e w).1.db
            ≡ (mark_failed S cfg job.payload.job_id e.message w).1.db)
  unfolding handle_failure record_terminal park try_catch ◌>>=◌ call
  handle_failure_recorded job e w h returned =
      rw (h, returned) (ap (λ z. z.0) (swallowed_db _ _), ap (λ z. z.1.db) (swallowed_db _ _))

  terminal_returns :
      (b : Bool) (job : BullJob) (e : Error) (w : World C)
      → ((if b then try_catch (record_terminal job e) (λ x. pure tt) else pure tt) w).0 ≡ ok tt
  unfolding try_catch pure
  terminal_returns true job e w = ap (λ z. z.0) (swallowed_db _ _)
  terminal_returns false job e w = refl

  -- The listener of failures never throws, whatever failed and whatever the database and the dead
  -- letter queue do.
  pub handle_failure_returns :
      (job : Option BullJob) (e : Error) (w : World C) → (handle_failure job e w).0 ≡ ok tt
  unfolding handle_failure pure
  handle_failure_returns none e w = refl
  handle_failure_returns (some job) e w = terminal_returns (is_terminal job e) job e w

  -- A terminal failure, be it unrecoverable or the last attempt, of a job that is there and not
  -- FAILED yet leaves the job FAILED with the error's message, cut to 1000 characters, whether the
  -- dead letter queue takes it or not, and is never thrown on.
  pub handle_failure-IsFailed :
      (job : BullJob) (e : Error) (w : World C) (j : Job)
      → is_terminal job e ≡ true
      → raw_by_id job.payload.job_id w.db ≡ some j
      → is_failed j.status ≡ false
      → ((handle_failure (some job) e w).0 ≡ ok tt)
        × IsFailed job.payload.job_id e.message (handle_failure (some job) e w).1.db
  handle_failure-IsFailed job e w j h found live =
      let (returned, failed) =
        mark_failed-IsFailed S cfg job.payload.job_id e.message w j found live in
      let (quiet, same) = handle_failure_recorded job e w h returned in (quiet, rw same failed)

  record_terminal-Keeps :
      {P : Db → Type 0} (job : BullJob) (e : Error)
      → WritesKeep P job.payload.job_id
      → Keeps P (record_terminal job e)
  unfolding record_terminal park
  record_terminal-Keeps job e k =
      Keeps-bind _ _ (mark_failed-Keeps S cfg job.payload.job_id k e.message) (λ u. Keeps-call _)

  -- What the writes of a run on any job keep, the listener of failures keeps.
  pub handle_failure-Keeps :
      {P : Db → Type 0} (job : Option BullJob) (e : Error)
      → ((id : Text) → WritesKeep P id)
      → Keeps P (handle_failure job e)
  unfolding handle_failure
  handle_failure-Keeps none e k = Keeps-pure tt
  handle_failure-Keeps (some job) e k =
      Keeps-if _ _ _
        (Keeps-try_catch _ _ (record_terminal-Keeps job e (k job.payload.job_id))
          (λ x. Keeps-pure tt))
        (Keeps-pure tt)
