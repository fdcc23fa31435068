-- ===== src/Tests/Attempts.antt =====
-- The attempts of a job and the events of a run, on concrete jobs.
use field_note.Common.{ℕ, ◌≡◌, refl, not, Bool, true, false, none, some, [], ◌∷◌, codes, arith}
use field_note.Result.{Error}
use field_note.Database.{JobStatus, Stage}
use field_note.World.{World, Services, Timing}
use field_note.Pipeline.{process}
use field_note.Pipeline.Events.{process-ArePaired}
use field_note.Pipeline.Counts.{ArePaired}
use field_note.Processor.{BullJob, is_terminal}
use field_note.Processor.Retry.{RetriesAsDocumented, deliver, deliver_ends}
use field_note.Processor.Eligible.{IsFinished}
use field_note.Tests.{fails, computed, cfg, services, job, world_of, payload}

-- The speech provider is down.
abbrev down : Services ℕ
down = record services { transcription_provider = λ stream key. fails (codes "down") }

abbrev retry : BullJob → Error → Bool
retry job e = not (is_terminal job e)

documented : RetriesAsDocumented retry
documented = record { stops = λ job e h. ground arith; goes_on = λ job e h. ground arith }

w0 : World ℕ
w0 = world_of JobStatus.queued

deliver_ends_example :
    (w' : World ℕ) × (deliver down cfg payload retry (λ w. w) 3 0 w0 ≡ some w')
    × IsFinished payload w'.db
unfolding computed w0
deliver_ends_example =
    deliver_ends down cfg payload retry (λ w. w) (codes "a") documented (λ w h. h) w0 refl
      (omega arith)
      (record {
        row = job (codes "j1") (codes "u1") JobStatus.queued;
        found = refl;
        live = refl;
        owned = refl;
        has_key = refl;
      })

-- The timer of every stage fires after its work.
abbrev slow : Services ℕ
slow = record services { timing = λ stage c. Timing.after_second }

process-ArePaired_example :
    ArePaired (codes "j1") Stage.transcribe (process slow cfg payload w0).1.db.events
unfolding w0 field_note.Pipeline.Counts.events_of field_note.Common.count
process-ArePaired_example =
    process-ArePaired slow cfg payload w0 (codes "j1") Stage.transcribe (λ e. ground (arith, e))
      refl
