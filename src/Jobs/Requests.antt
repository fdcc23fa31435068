-- ===== src/Jobs/Requests.antt =====
-- Properties of the database through the requests of a user.
use field_note.Common.{ℕ, Option, none, some, List, Text}
use field_note.Database.{Db, JobStatus, JobWithReport, ReportSectionInput}
use field_note.World.{query, Services, Config}
use field_note.World.Keeps.{
  Keeps, Keeps-pure, Keeps-throw, Keeps-select, Keeps-call, Keeps-bind, Keeps-if, Keeps-at_now,
  Keeps-write_now,
}
use field_note.Repository.{
  create_draft, update_label_scoped, replace_report_scoped, soft_delete_scoped, set_status,
}
use field_note.Queue.{enqueue_processing-Keeps}
use field_note.Media.{presign_pdf_download}
use field_note.Jobs.Keeps.{require_owned-Keeps, maybe_pdf_url-Keeps, or_throw-Keeps}
use field_note.Jobs.Create.{respond-Keeps}
use field_note.Jobs.Dto.{UpdateSectionDto, UpdateJobDto}
use field_note.Jobs.Pages.{list, next_cursor, cursor_of}
use field_note.Jobs.Process.{object_exists-Keeps}
use field_note.Jobs.Remove.{remove_objects-Keeps}
use field_note.Jobs.{
  find_one, apply_label, apply_update, update, start, start_if, start_checked, process_owned,
  process, remove, to_report_input, create, create_new, replay_or_new, replay_or_create,
  get_pdf_url,
}

-- The writes of the requests on one job keep `P`.
pub record RequestWrites (P : Db → Type 0) (user_id job_id : Text) : Type 0 where
  pub label :
      (label : Text) (now : ℕ) (db : Db)
      → P db
      → P (update_label_scoped user_id job_id label now db)
  pub report :
      (label : Option Text) (ss : List ReportSectionInput) (now : ℕ) (db : Db)
      → P db
      → P (replace_report_scoped user_id job_id label ss now db).1
  pub start :
      (now : ℕ) (db : Db) → P db → P (set_status job_id JobStatus.queued (some none) now db).1
  pub delete : (now : ℕ) (db : Db) → P db → P (soft_delete_scoped user_id job_id now db).1

module _ {C : Type 0} (S : Services C) (cfg : Config) {P : Db → Type 0} (user_id job_id : Text)
    (k : RequestWrites P user_id job_id) where
  pub find_one-Keeps : Keeps P (find_one S cfg user_id job_id)
  unfolding find_one
  find_one-Keeps =
      Keeps-bind _ _ (require_owned-Keeps user_id job_id)
        (λ job. Keeps-bind _ _ (maybe_pdf_url-Keeps S cfg job) (λ url. Keeps-pure _))

  apply_label-Keeps : (o : Option Text) → Keeps P (apply_label S cfg user_id job_id o)
  unfolding apply_label
  apply_label-Keeps none = Keeps-pure tt
  apply_label-Keeps (some label) = Keeps-write_now S _ (λ now db. k.label label now db)

  apply_update-Keeps :
      (dto : UpdateJobDto) (o : Option (List UpdateSectionDto))
      → Keeps P (apply_update S cfg user_id job_id dto o)
  unfolding apply_update
  apply_update-Keeps dto (some ss) =
      Keeps-at_now S _ (λ now db. k.report dto.label (to_report_input ss) now db)
  apply_update-Keeps dto none = apply_label-Keeps dto.label

  pub update-Keeps : (dto : UpdateJobDto) → Keeps P (update S cfg user_id job_id dto)
  unfolding update
  update-Keeps dto =
      Keeps-bind _ _ (require_owned-Keeps user_id job_id)
        λ job. Keeps-bind _ _ (apply_update-Keeps dto dto.sections) (λ x. find_one-Keeps)

  start-Keeps : (job : JobWithReport) → Keeps P (start S cfg user_id job_id job)
  unfolding start
  start-Keeps job = Keeps-bind _ _ (Keeps-at_now S _ (λ now db. k.start now db)) λ x.
      Keeps-bind _ _ (enqueue_processing-Keeps S cfg P _)
        (λ y. Keeps-bind _ _ (Keeps-select _) (λ z. Keeps-pure _))

  start_checked-Keeps : (job : JobWithReport) → Keeps P (start_checked S cfg user_id job_id job)
  unfolding start_checked start_if
  start_checked-Keeps job =
      Keeps-bind _ _ (object_exists-Keeps S _ P)
        (λ b. Keeps-if _ _ _ (Keeps-throw _) (start-Keeps job))

  pub process-Keeps : Keeps P (process S cfg user_id job_id)
  unfolding process process_owned
  process-Keeps = Keeps-bind _ _ (require_owned-Keeps user_id job_id) λ job.
      Keeps-if _ _ _ (Keeps-bind _ _ (maybe_pdf_url-Keeps S cfg job) (λ url. Keeps-pure _))
        (Keeps-if _ _ _ (Keeps-pure _) (start_checked-Keeps job))

  pub remove-Keeps : Keeps P (remove S user_id job_id)
  unfolding remove
  remove-Keeps = Keeps-bind _ _ (require_owned-Keeps user_id job_id) λ job.
      Keeps-bind _ _ (Keeps-at_now S _ (λ now db. k.delete now db))
        (λ n. Keeps-if _ _ _ (Keeps-throw _) (remove_objects-Keeps S P job))

-- Requests that write no row that is there.
module _ {C : Type 0} (S : Services C) (cfg : Config) {P : Db → Type 0} where
  cursor_of-Keeps : (o : Option Text) → Keeps P (cursor_of S o)
  unfolding cursor_of
  cursor_of-Keeps none = Keeps-throw _
  cursor_of-Keeps (some id) = Keeps-pure _

  pub list-Keeps :
      (user_id : Text) (cursor : Option Text) (limit : ℕ) → Keeps P (list S user_id cursor limit)
  unfolding list next_cursor query
  list-Keeps user_id cursor limit =
      Keeps-bind _ _ (record { at = λ w h. h })
        λ jobs.
          Keeps-bind _ _ (Keeps-if _ _ _ (cursor_of-Keeps _) (Keeps-pure none)) (λ c. Keeps-pure _)

  pub get_pdf_url-Keeps : (user_id id : Text) → Keeps P (get_pdf_url S cfg user_id id)
  unfolding get_pdf_url presign_pdf_download
  get_pdf_url-Keeps user_id id = Keeps-bind _ _ (require_owned-Keeps user_id id) λ job.
      Keeps-bind _ _ (or_throw-Keeps _ _)
        (λ key. Keeps-bind _ _ (Keeps-call _) (λ url. Keeps-pure _))

-- The row that a create appends keeps `P`.
abbrev pub CreateKeeps : (Db → Type 0) → Text → Type 0
CreateKeeps P user_id =
    (id label key : Text) (k : Option Text) (now : ℕ) (db : Db)
    → P db
    → P (create_draft id user_id label key k now db).1

module _ {C : Type 0} (S : Services C) (cfg : Config) {P : Db → Type 0} (user_id label : Text)
    (created : CreateKeeps P user_id) where
  create_new-Keeps : (k : Option Text) → Keeps P (create_new S cfg user_id label k)
  unfolding create_new
  create_new-Keeps k = Keeps-bind _ _ (Keeps-call _) λ id.
      Keeps-bind _ _ (Keeps-at_now S _ (λ now db. created id label _ k now db))
        (λ job. respond-Keeps S cfg user_id _ job id)

  replay_or_create-Keeps :
      (k : Text) (o : Option JobWithReport) → Keeps P (replay_or_create S cfg user_id label k o)
  unfolding replay_or_create
  replay_or_create-Keeps k none = create_new-Keeps (some k)
  replay_or_create-Keeps k (some j) = respond-Keeps S cfg user_id _ j j.id

  pub create-Keeps : (k : Option Text) → Keeps P (create S cfg user_id label k)
  unfolding create replay_or_new
  create-Keeps none = create_new-Keeps none
  create-Keeps (some k) =
      Keeps-if _ _ _ (create_new-Keeps (some k))
        (Keeps-bind _ _ (Keeps-select _) (replay_or_create-Keeps k))
