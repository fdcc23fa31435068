-- ===== src/Processor/Retry.antt =====
-- The attempts of one queued job: server/src/processing/worker/processing.processor.ts, run by
-- BullMQ with the options of server/src/queue/processing-queue.service.ts.
use field_note.Common.{
  ℕ, zero, suc, ◌+◌, ◌<◌, ◌≡◌, refl, ap, ◌∙◌, inl, inr, Bool, true, false, Bool-cases, Option, none,
  some, Text, is_empty, leb, if◌then◌else◌, arith,
}
use field_note.Result.{Error, Result, ok, err, pure}
use field_note.Database.{Db}
use field_note.Repository.{raw_by_id}
use field_note.World.{World, ProcessJobData, Services, Config}
use field_note.Queue.{job_options}
use field_note.Pipeline.{process, is_ready, is_unrecoverable}
use field_note.Pipeline.Keeps.{process-Keeps}
use field_note.Pipeline.Guards.{process_ready, not_ready}
use field_note.Pipeline.Outcome.{process-IsPublished}
use field_note.Pipeline.Failure.{
  mark_failed_again, IsFailed, Ended, process-Ended, running_not_failed,
}
use field_note.Processor.{
  BullJob, is_terminal, named_unrecoverable, work, handle_failure, handle_failure_recorded,
  handle_failure-IsFailed, max_attempts,
}
use field_note.Processor.Eligible.{IsEligible-WritesKeep, IsEligible, IsFinished}

-- What BullMQ documents of a failed job: it is put back for another attempt unless its attempts are
-- used up or its error is an UnrecoverableError.
pub record RetriesAsDocumented (retry : BullJob → Error → Bool) : Type 0 where
  pub stops : (job : BullJob) (e : Error) → retry job e ≡ true → is_terminal job e ≡ false
  pub goes_on : (job : BullJob) (e : Error) → retry job e ≡ false → is_terminal job e ≡ true

-- After the job's function: what is done when it returned, and when it threw, where `again` is the
-- next attempt.
abbrev after_work :
    {C : Type 0}
    → Services C
    → Config
    → (BullJob → Error → Bool)
    → BullJob
    → Result (Unit {0}) × World C
    → (World C → Option (World C))
    → Option (World C)
after_work S cfg retry job (ok u, w) again = some w
after_work S cfg retry job (err e, w) again =
    let w' = (handle_failure S cfg (some job) e w).1 in if retry job e then again w' else some w'

module _ {C : Type 0} (S : Services C) (cfg : Config) (d : ProcessJobData)
    (retry : BullJob → Error → Bool) (between : World C → World C) where
  -- The job as the queue has added it, after some attempts.
  abbrev attempt : ℕ → BullJob
  attempt made = record {
    payload = d;
    attempts_made = made;
    attempts = some (job_options cfg d.job_id).attempts;
  }

  -- At most `rounds` attempts, with `between` what else happens before the next one; `none` if the
  -- job would be tried once more. The listener of a failure is done before the next attempt, which
  -- starts at least five seconds later.
  unfoldable pub deliver : ℕ → ℕ → World C → Option (World C)
  deliver zero made w = none
  deliver (suc rounds) made w =
      after_work S cfg retry (attempt (suc made)) (work S cfg (attempt made) w)
        (λ w'. deliver rounds (suc made) (between w'))

  failed-IsFinished : (db : Db) (m : Text) → IsFailed d.job_id m db → IsFinished d db
  failed-IsFinished db m f = record { row = f.row; found = f.found; is_final = inr f.is_failed }

  unrecoverable-terminal :
      (job : BullJob) (e : Error) → is_unrecoverable e.kind ≡ true → is_terminal job e ≡ true
  unfolding is_terminal named_unrecoverable is_unrecoverable
  unrecoverable-terminal job e h = ground arith

  used_up :
      (job : BullJob) (e : Error)
      → is_terminal job e ≡ false
      → leb (max_attempts job.attempts) job.attempts_made ≡ false
  unfolding is_terminal
  used_up job e h = ground arith

  -- A terminal failure finishes the job, however its run ended.
  terminal-IsFinished :
      (n : ℕ) (e : Error) (w : World C)
      → Ended d.job_id e w.db
      → is_terminal (attempt n) e ≡ true
      → IsFinished d (handle_failure S cfg (some (attempt n)) e w).1.db
  terminal-IsFinished n e w (inl (dead, f)) h =
      let again =
        mark_failed_again S cfg d.job_id e.message w f.row f.found (rw f.is_failed refl) in
      let (quiet, same) = handle_failure_recorded S cfg (attempt n) e w h (ap (λ z. z.0) again) in
      record {
        row = f.row;
        found = ap (raw_by_id d.job_id) (same ∙ ap (λ z. z.1.db) again) ∙ f.found;
        is_final = inr f.is_failed;
      }
  terminal-IsFinished n e w (inr (p, (j, found, running))) h =
      failed-IsFinished _ e.message
        (handle_failure-IsFailed S cfg (attempt n) e w j h found
          (running_not_failed j.status running)).1

  -- A failure that is not terminal is left to BullMQ.
  quiet_failure :
      (n : ℕ) (e : Error) (w : World C)
      → is_terminal (attempt n) e ≡ false
      → handle_failure S cfg (some (attempt n)) e w ≡ (ok tt, w)
  unfolding handle_failure pure
  quiet_failure n e w h = rw h refl

  work-Ended :
      (key : Text) (w : World C) (e : Error)
      → is_empty key ≡ false
      → IsEligible d key w.db
      → (process S cfg d w).0 ≡ err e
      → Ended d.job_id e (process S cfg d w).1.db
  work-Ended key w e named h thrown = elim (Bool-cases (is_ready h.row.status)) [
    | inl ready ↦
        let p = process_ready S cfg d w h.row h.found h.live h.owned ready in
        absurd (cc (ap (λ z. z.0) p, thrown))
    | inr unready ↦
        process-Ended S cfg d w h.row key e
          (record {
            found = h.found;
            live = h.live;
            owned = h.owned;
            unfinished = not_ready h.row.status unready;
          })
          h.has_key named thrown
  ]

  work-IsFinished :
      (key : Text) (w : World C)
      → IsEligible d key w.db
      → (process S cfg d w).0 ≡ ok tt
      → IsFinished d (process S cfg d w).1.db
  work-IsFinished key w h returned =
      elim (process-IsPublished S cfg d w h.row h.found h.live returned) [
        | inl (ready, same) ↦ record {
          row = h.row;
          found = ap (λ z. raw_by_id d.job_id z.1.db) same ∙ h.found;
          is_final = inl ready;
        }
        | inr p ↦ record { row = p.row; found = p.found; is_final = inl p.is_ready }
      ]

  module _ (key : Text) (documented : RetriesAsDocumented retry)
      (kept : (w : World C) → IsEligible d key w.db → IsEligible d key (between w).db) where
    -- What a delivery comes to.
    abbrev Ends : Option (World C) → Type 0
    Ends r = (w' : World C) × (r ≡ some w') × IsFinished d w'.db

    after_work-Ends :
        (made : ℕ) (r : Result (Unit {0})) (w : World C) (again : World C → Option (World C))
        → (r ≡ ok tt → IsFinished d w.db)
        → ((e : Error) → r ≡ err e → Ended d.job_id e w.db)
        → (suc made < cfg.job_max_attempts → Ends (again w))
        → Ends (after_work S cfg retry (attempt (suc made)) (r, w) again)
    unfolding job_options
    after_work-Ends made (ok tt) w again done ended next = (w, refl, done refl)
    after_work-Ends made (err e) w again done ended next =
        elim (Bool-cases (retry (attempt (suc made)) e)) [
          | inl retried ↦
              let more = documented.stops (attempt (suc made)) e retried in
              let left = used_up (attempt (suc made)) e more in
              rw (retried, quiet_failure (suc made) e w more) (next (ground arith))
          | inr given_up ↦
              let over = documented.goes_on (attempt (suc made)) e given_up in
              rw given_up (_, refl, terminal-IsFinished (suc made) e w (ended e refl) over)
        ]

    deliver_from :
        (rounds made : ℕ) (w : World C)
        → is_empty key ≡ false
        → made + rounds ≡ cfg.job_max_attempts
        → made < cfg.job_max_attempts
        → IsEligible d key w.db
        → Ends (deliver rounds made w)
    unfolding deliver
    deliver_from zero made w named e left h = absurd (omega arith)
    deliver_from (suc rounds) made w named e left h =
        let w' = (process S cfg d w).1 in
        let h' = (process-Keeps S cfg d (IsEligible-WritesKeep d key)).at w h in
        after_work-Ends made (process S cfg d w).0 w' _ (work-IsFinished key w h)
          (λ x thrown. work-Ended key w x named h thrown)
          (λ more.
            deliver_from rounds (suc made) (between w') named (omega arith) more (kept w' h'))

    -- A job that is there, not deleted, its user's and with an audio key, whatever its status is and
    -- whatever the cloud answers, is READY or FAILED after at most `jobMaxAttempts` attempts, if what
    -- happens between two attempts leaves it so, BullMQ retries as documented, and an attempt is
    -- allowed at all.
    pub deliver_ends :
        (w : World C)
        → is_empty key ≡ false
        → 0 < cfg.job_max_attempts
        → IsEligible d key w.db
        → (w' : World C) × (deliver cfg.job_max_attempts 0 w ≡ some w') × IsFinished d w'.db
    deliver_ends w named allowed h =
        deliver_from cfg.job_max_attempts 0 w named (omega arith) allowed h
