-- ===== src/Tests/Requests.antt =====
-- Requests on concrete jobs.
use field_note.Common.{ℕ, ◌≡◌, refl, none, some, List, [], ◌∷◌, ◌++◌, codes, arith, ◌⊎◌}
use field_note.Severity.{ApiSeverity}
use field_note.Result.{Error, ErrorKind, error, ok, err}
use field_note.Database.{JobStatus, Job}
use field_note.World.{World, Services}
use field_note.Repository.{load, find_by_id, draft}
use field_note.Repository.Written.{IsFresh}
use field_note.Repository.Others.{IsSound}
use field_note.Repository.Scoped.{scoped_row}
use field_note.Media.{audio_key}
use field_note.Queue.{is_finished, enqueue_processing, job_options}
use field_note.Jobs.Dto.{JobDto, UpdateJobDto, UpdateSectionDto, CreateJobResponseDto, job_to_dto}
use field_note.Jobs.{job_not_found, create, find_one, update, process, remove, get_pdf_url}
use field_note.Jobs.Owned.{requests_hidden}
use field_note.Jobs.Process.{IsStartable, queued, process_queues, process_stuck}
use field_note.Jobs.Remove.{remove_hides}
use field_note.Jobs.Shown.{ShowsEdit}
use field_note.Jobs.Update.{update_returns}
use field_note.Jobs.Create.{taken, create_deleted_key, create_once}
use field_note.Jobs.Isolation.{requests_others}
use field_note.Jobs.Writes.{HasQueued, process_writes}
use field_note.Jobs.Drafts.{Appends, create_writes}
use field_note.Tests.{computed, fails, cfg, services, job, db_of, world_of}

abbrev w0 : World ℕ
w0 = world_of JobStatus.created

abbrev j0 : Job
j0 = job (codes "j1") (codes "u1") JobStatus.created

-- Two sections in the wrong order.
abbrev edit : List UpdateSectionDto
edit =
    record { title = codes "Walls"; sort_order = 5; findings = [] }
    ∷ record {
      title = codes "Roof";
      sort_order = 2;
      findings = record { text = codes "Leak"; severity = ApiSeverity.repair; sort_order = 0 } ∷ [];
    }
    ∷ []

abbrev dto : UpdateJobDto
dto = record { label = some (codes "Barn"); sections = some edit }

fresh : IsFresh w0.db
fresh = record { sections_below = (omega arith, tt); findings_below = (omega arith, tt) }

sound : IsSound w0.db
sound = record {
  sections_below = (omega arith, tt);
  findings_below = (omega arith, tt);
  one_owner = ((λ e. refl, tt), tt);
}

update_returns_example :
    (r : JobDto) × ((update services cfg (codes "u1") (codes "j1") dto w0).0 ≡ ok r)
    × ShowsEdit edit r.sections
    × (r.label ≡ codes "Barn")
unfolding computed
update_returns_example =
    update_returns services cfg (λ key ttl c. (key, refl)) (codes "u1") (codes "j1") dto edit w0 j0
      refl fresh refl

requests_hidden_example :
    (find_one services cfg (codes "u2") (codes "j1") w0 ≡ (err job_not_found, w0))
    × (update services cfg (codes "u2") (codes "j1") dto w0 ≡ (err job_not_found, w0))
    × (process services cfg (codes "u2") (codes "j1") w0 ≡ (err job_not_found, w0))
    × (remove services (codes "u2") (codes "j1") w0 ≡ (err job_not_found, w0))
    × (get_pdf_url services cfg (codes "u2") (codes "j1") w0 ≡ (err job_not_found, w0))
unfolding computed
requests_hidden_example =
    requests_hidden services cfg (codes "u2") (codes "j1") w0 dto
      (λ same own gone. ground (arith, own), (λ same own gone. ground (arith, same), tt))

requests_others_example :
    (find_by_id (codes "j2") (update services cfg (codes "u1") (codes "j1") dto w0).1.db
      ≡ find_by_id (codes "j2") w0.db)
    × (find_by_id (codes "j2") (process services cfg (codes "u1") (codes "j1") w0).1.db
        ≡ find_by_id (codes "j2") w0.db)
    × (find_by_id (codes "j2") (remove services (codes "u1") (codes "j1") w0).1.db
        ≡ find_by_id (codes "j2") w0.db)
requests_others_example =
    requests_others services cfg (codes "u1") (codes "j1") (codes "j2") dto w0
      (λ e. ground (arith, e)) sound

startable :
    (S : Services ℕ)
    → S.head_object ≡ services.head_object
    → IsStartable S (codes "u1") (codes "j1") w0 w0 j0
unfolding computed
startable S same = record { found = refl; idle = refl; unready = refl; uploaded = rw same refl }

abbrev queued_row : Job
queued_row = queued 7 j0

abbrev w_queued : World ℕ
w_queued = record {
  db = record (db_of (queued_row ∷ job (codes "j2") (codes "u2") JobStatus.created ∷ [])) {};
  cloud = 7;
}

process_queues_example :
    (process services cfg (codes "u1") (codes "j1") w0
      ≡ (ok (job_to_dto (load w_queued.db queued_row) none), w_queued))
    × (scoped_row (codes "u1") (codes "j1") w_queued.db ≡ some queued_row)
unfolding computed enqueue_processing is_finished job_options
process_queues_example =
    process_queues services cfg (codes "u1") (codes "j1") w0 w0 w_queued j0
      (startable services refl) refl

abbrev no_queue : Services ℕ
no_queue = record services { queue_add = λ payload options. fails (codes "redis") }

abbrev redis : Error
redis = error ErrorKind.plain (codes "redis")

process_stuck_example :
    (process no_queue cfg (codes "u1") (codes "j1") w0 ≡ (err redis, w_queued))
    × (process no_queue cfg (codes "u1") (codes "j1") w_queued
        ≡ (ok (job_to_dto (load w_queued.db queued_row) none), w_queued))
unfolding computed enqueue_processing is_finished job_options
process_stuck_example =
    process_stuck no_queue cfg (codes "u1") (codes "j1") w0 w0 w_queued j0 redis
      (startable no_queue refl) refl

-- The bucket refuses to delete.
abbrev no_delete : Services ℕ
no_delete = record services { delete_objects = λ keys. fails (codes "bucket") }

remove_hides_example :
    ((remove no_delete (codes "u1") (codes "j1") w0).0 ≡ ok tt)
    × (find_one no_delete cfg
          (codes "u1")
          (codes "j1")
          (remove no_delete (codes "u1") (codes "j1") w0).1
        ≡ (err job_not_found, (remove no_delete (codes "u1") (codes "j1") w0).1))
    × (process no_delete cfg
          (codes "u1")
          (codes "j1")
          (remove no_delete (codes "u1") (codes "j1") w0).1
        ≡ (err job_not_found, (remove no_delete (codes "u1") (codes "j1") w0).1))
    × (get_pdf_url no_delete cfg
          (codes "u1")
          (codes "j1")
          (remove no_delete (codes "u1") (codes "j1") w0).1
        ≡ (err job_not_found, (remove no_delete (codes "u1") (codes "j1") w0).1))
unfolding computed
remove_hides_example = remove_hides no_delete cfg (codes "u1") (codes "j1") w0 j0 refl

abbrev ready_row : Job
ready_row = record (job (codes "j1") (codes "u1") JobStatus.ready) { pdf_key = some (codes "p") }

abbrev w_ready : World ℕ
w_ready = record { db = db_of (ready_row ∷ []); cloud = 7 }

abbrev w_deleted : World ℕ
w_deleted = record { db = db_of (record j0 { deleted_at = some 5 } ∷ []); cloud = 7 }

create_deleted_key_example :
    create services cfg (codes "u1") (codes "Other") (some (codes "k")) w_deleted
    ≡ (err taken, w_deleted)
unfolding computed
create_deleted_key_example =
    create_deleted_key services cfg (codes "u1") (codes "Other") (codes "k") w_deleted refl refl
      refl

-- The first create with a key, and the world that it leaves.
abbrev made_row : Job
made_row =
    draft (codes "new") (codes "u1") (codes "Shed") (audio_key (codes "u1") (codes "new"))
      (some (codes "k2")) 7

abbrev w_made : World ℕ
w_made = record w0 { db = record w0.db { jobs = w0.db.jobs ++ made_row ∷ [] } }

abbrev response : CreateJobResponseDto
response = record {
  job = job_to_dto (load w_made.db made_row) none;
  audio_upload_url = record {
    url = audio_key (codes "u1") (codes "new");
    key = audio_key (codes "u1") (codes "new");
    content_type = codes "audio/m4a";
    expires_in_seconds = 900;
  };
}

create_once_example :
    (response.job.id ≡ response.job.id)
    × ((create services cfg (codes "u1") (codes "Other") (some (codes "k2")) w_made).1.db
        ≡ w_made.db)
    × (w_made.db.jobs ≡ w0.db.jobs ++ made_row ∷ [])
unfolding computed create
create_once_example =
    create_once services cfg (codes "u1") (codes "Shed") (codes "k2") w0 refl refl refl
      (codes "Other") response response w_made refl refl

process_writes_example :
    ((process no_queue cfg (codes "u1") (codes "j1") w0).1.db ≡ w0.db)
    ⊎ HasQueued no_queue
        (codes "u1")
        (codes "j1")
        w0
        (process no_queue cfg (codes "u1") (codes "j1") w0).1.db
process_writes_example = process_writes no_queue cfg (codes "u1") (codes "j1") w0

create_writes_example :
    ((create services cfg (codes "u1") (codes "Shed") none w0).1.db ≡ w0.db)
    ⊎ Appends
        (codes "u1")
        (codes "Shed")
        none
        w0.db
        (create services cfg (codes "u1") (codes "Shed") none w0).1.db
create_writes_example = create_writes services cfg (codes "u1") (codes "Shed") none w0
