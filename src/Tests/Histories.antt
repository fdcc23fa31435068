-- ===== src/Tests/Histories.antt =====
-- Histories of a job, and of concrete requests and runs.
use field_note.Common.{ℕ, true, none, some, [], codes}
use field_note.Result.{ErrorKind, error}
use field_note.Database.{Db, JobStatus}
use field_note.World.{World}
use field_note.Repository.{create_draft, set_status, set_pdf_ready}
use field_note.Repository.Consistent.{IsConsistent}
use field_note.History.{Step, History}
use field_note.History.Runs.{service_histories}
use field_note.History.Invariant.{history-IsConsistent}
use field_note.Pipeline.{process}
use field_note.Processor.{handle_failure}
use field_note.Http.Jobs.{JobsRequest, handle_request}
use field_note.Tokens.{AuthConfig}
use field_note.Http.Guard.{GuardServices}
use field_note.Tests.{done, cfg, services, world_of, payload}

abbrev none_yet : Db
none_yet = record {
  users = [];
  refresh_tokens = [];
  jobs = [];
  sections = [];
  findings = [];
  events = [];
  next_id = 1;
}

abbrev created : Db
created = (create_draft (codes "j1") (codes "u1") (codes "House") (codes "a") none 1 none_yet).1

-- The job fails, and a render stage that had timed out publishes its document then.
abbrev failed : Db
failed = (set_status (codes "j1") JobStatus.failed (some (some (codes "late"))) 2 created).1

abbrev published : Db
published = (set_pdf_ready (codes "j1") (codes "p") 3 failed).1

late : History none_yet published
late =
    History.then
      (History.then
        (History.then History.start
          (Step.create (codes "j1") (codes "u1") (codes "House") (codes "a") none 1))
        (Step.fail (codes "j1") (codes "late") 2))
      (Step.publish (codes "j1") (codes "p") 3)

history-IsConsistent_example : IsConsistent published
history-IsConsistent_example = history-IsConsistent none_yet published late (record {
  rows = record { ids = tt; served = tt };
  sound = record { sections_below = tt; findings_below = tt; one_owner = tt };
})

abbrev guard : GuardServices ℕ
guard = record {
  jwt_verify = λ secret token issuer audience.
      done
        (record { token_type = some (codes "access"); sub = some (codes "u1"); apple_sub = none });
}

abbrev auth_cfg : AuthConfig
auth_cfg = record {
  access_ttl = 900;
  refresh_ttl = 3600;
  app_base_url = codes "https://x";
  access_secret = codes "k";
}

w0 : World ℕ
w0 = world_of JobStatus.created

service_histories_example :
    History w0.db
      (handle_request services cfg
        (λ id. true)
        guard
        auth_cfg
        (some (codes "Bearer t"))
        (JobsRequest.delete_job (codes "j1"))
        w0).1.db
    × History w0.db (process services cfg payload w0).1.db
    × History w0.db (handle_failure services cfg none (error ErrorKind.plain (codes "x")) w0).1.db
service_histories_example =
    service_histories services cfg (λ id. true) guard auth_cfg (some (codes "Bearer t"))
      (JobsRequest.delete_job (codes "j1")) payload none (error ErrorKind.plain (codes "x")) w0
