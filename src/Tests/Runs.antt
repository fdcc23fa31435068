-- ===== src/Tests/Runs.antt =====
-- Runs of the pipeline on concrete jobs.
use field_note.Common.{ℕ, ◌≡◌, refl, none, some, [], ◌∷◌, codes, arith}
use field_note.Result.{ok, Error, ErrorKind, error, try_catch}
use field_note.Database.{Db, JobStatus, Job}
use field_note.Pipeline.{process, render_stage, on_stage_error}
use field_note.Severity.{Severity}
use field_note.World.{World, Services}
use field_note.Repository.{find_by_id, replace_report}
use field_note.Repository.Others.{IsSound}
use field_note.Pipeline.Failure.{Ended, process-Ended, IsFailed}
use field_note.Pipeline.Isolation.{process_others}
use field_note.Pipeline.Resume.{process_resumes}
use field_note.Processor.{
  BullJob, handle_failure, is_terminal, named_unrecoverable, handle_failure-IsFailed,
}
use field_note.Tests.{fails, db_of, report, computed, cfg, services, job, world_of, payload}

-- The speech provider is down.
abbrev broken : Services ℕ
broken = record services { transcription_provider = λ stream key. fails (codes "down") }

process-Ended_example :
    Ended
      (codes "j1")
      (error ErrorKind.plain (codes "down"))
      (process broken cfg payload (world_of JobStatus.queued)).1.db
unfolding computed
process-Ended_example =
    process-Ended broken cfg payload (world_of JobStatus.queued)
      (job (codes "j1") (codes "u1") JobStatus.queued) (codes "a")
      (error ErrorKind.plain (codes "down"))
      (record { found = refl; live = refl; owned = refl; unfinished = λ e. ground (arith, e) }) refl
      refl refl

sound : IsSound (world_of JobStatus.queued).db
sound = record {
  sections_below = (omega arith, tt);
  findings_below = (omega arith, tt);
  one_owner = ((λ e. refl, tt), tt);
}

process_others_example :
    IsSound (process services cfg payload (world_of JobStatus.queued)).1.db
    × (find_by_id (codes "j2") (process services cfg payload (world_of JobStatus.queued)).1.db
        ≡ find_by_id (codes "j2") (world_of JobStatus.queued).db)
process_others_example =
    process_others services cfg payload (world_of JobStatus.queued) (codes "j2")
      (λ e. ground (arith, e)) sound

-- A job that an earlier attempt has left with a transcript and a report.
abbrev transcribed : Job
transcribed = record (job (codes "j1") (codes "u1") JobStatus.rendering) {
  transcript = some (codes "Text.");
}

abbrev compiled_db : Db
compiled_db = db_of (transcribed ∷ [])

abbrev resumable : World ℕ
resumable = record { db = replace_report (codes "j1") report compiled_db; cloud = 7 }

process_resumes_example :
    process services cfg payload resumable
    ≡ try_catch
        (render_stage services cfg (codes "j1") (codes "u1") (codes "House") report)
        (on_stage_error services cfg payload)
        resumable
unfolding computed
process_resumes_example =
    process_resumes services cfg payload resumable transcribed (codes "a") (codes "Text.")
      (record {
        title = codes "Roof";
        findings = record { text = codes "Leak"; severity = Severity.repair } ∷ [];
      })
      [] compiled_db
      (record { found = refl; live = refl; owned = refl; unfinished = λ e. ground (arith, e) }) refl
      refl refl (record { sections_below = (omega arith, tt); findings_below = (omega arith, tt) })
      refl

abbrev attempt : ℕ → BullJob
attempt n = record { payload = payload; attempts_made = n; attempts = some 3 }

abbrev down : Error
down = error (ErrorKind.external (codes "Error") none) (codes "down")

-- The third of three attempts, with the dead letter queue out of reach.
handle_failure-IsFailed_example :
    ((handle_failure
        (record services { dlq_add = λ f. fails (codes "redis") })
        cfg
        (some (attempt 3))
        down
        (world_of JobStatus.rendering)).0
      ≡ ok tt)
    × IsFailed
        (codes "j1")
        (codes "down")
        (handle_failure
          (record services { dlq_add = λ f. fails (codes "redis") })
          cfg
          (some (attempt 3))
          down
          (world_of JobStatus.rendering)).1.db
unfolding computed is_terminal named_unrecoverable
handle_failure-IsFailed_example =
    handle_failure-IsFailed (record services { dlq_add = λ f. fails (codes "redis") }) cfg
      (attempt 3) down (world_of JobStatus.rendering)
      (job (codes "j1") (codes "u1") JobStatus.rendering) refl refl refl
