-- ===== src/Repository/Rows.antt =====
-- The row of one job under the updates by id.
use field_note.Common.{
  ap, ◌∙◌, ℕ, Bool, true, false, ◌≡◌, refl, Option, none, some, List, [], ◌∷◌, map, Text, text_eq,
  text_eq_iff, find?, any, inl, inr, Bool-cases, or_else, arith, if◌then◌else◌, find?-some_test,
}
use mathlib.Core.Option
use field_note.Result.{Result, ok}
use field_note.Database.{JobStatus, Job, Db, Stage, EventStatus, ReportSectionInput}
use field_note.Repository.Report.{jobs-replace_report}
use field_note.Repository.{
  has_id, update_unique, update_job, raw_by_id, set_status, save_transcript, set_pdf_ready,
  add_event, replace_report,
}

-- An update that keeps the primary key.
abbrev pub KeepsId : (Job → Job) → Type 0
KeepsId f = (j : Job) → (f j).id ≡ j.id

module _ (id : Text) (f : Job → Job) (keeps : KeepsId f) where
  find_updated :
      (jobs : List Job)
      → find? (has_id id) (map (λ j. if has_id id j then f j else j) jobs)
        ≡ Option.map f (find? (has_id id) jobs)
  unfolding find? has_id
  find_updated [] = refl
  find_updated (j ∷ jobs) = elim (Bool-cases (text_eq j.id id)) [
    | inl e ↦ rw (e, keeps j, e) refl
    | inr e ↦ rw (e, e) (find_updated jobs)
  ]

  find_other :
      (other : Text) (jobs : List Job)
      → text_eq id other ≡ false
      → find? (has_id other) (map (λ j. if has_id id j then f j else j) jobs)
        ≡ find? (has_id other) jobs
  unfolding find? has_id
  find_other other [] h = refl
  find_other other (j ∷ jobs) h = elim (Bool-cases (text_eq j.id id)) [
    | inl e ↦
        let p : j.id ≡ id = (text_eq_iff j.id id).0 e in
        let q : text_eq j.id other ≡ false = rw p h in rw (e, keeps j, q) (find_other other jobs h)
    | inr e ↦ rw e (ap (λ r. if text_eq j.id other then some j else r) (find_other other jobs h))
  ]

any_of_find :
    (p : Job → Bool) (jobs : List Job) (j : Job) → find? p jobs ≡ some j → any p jobs ≡ true
unfolding find? any
any_of_find p [] j h = ground arith
any_of_find p (i ∷ jobs) j h = ground (arith, any_of_find p jobs j)

-- An update by id of a job that is there succeeds and changes its row.
abbrev pub Updates : Text → Job → Result (Unit {0}) × Db → Type 0
Updates id j r = (r.0 ≡ ok tt) × (raw_by_id id r.1 ≡ some j)

module _ (id : Text) (f : Job → Job) (keeps : KeepsId f) (db : Db) where
  update_job-Updates : (j : Job) → raw_by_id id db ≡ some j → Updates id (f j) (update_job id f db)
  unfolding update_job update_unique raw_by_id
  update_job-Updates j h =
      rw (any_of_find (has_id id) db.jobs j h)
        (refl, find_updated id f keeps db.jobs ∙ ap (Option.map f) h)

  pub update_job_other :
      (other : Text)
      → text_eq id other ≡ false
      → raw_by_id other (update_job id f db).1 ≡ raw_by_id other db
  unfolding update_job update_unique raw_by_id
  update_job_other other h = elim (Bool-cases (any (has_id id) db.jobs)) [
    | inl e ↦ rw e (find_other id f keeps other db.jobs h)
    | inr e ↦ rw e refl
  ]

module _ (id : Text) (now : ℕ) (db : Db) (j : Job) (h : raw_by_id id db ≡ some j) where
  pub set_status-Updates :
      (s : JobStatus) (m : Option (Option Text))
      → Updates id
          (record j { status = s; error_message = or_else m j.error_message; updated_at = now })
          (set_status id s m now db)
  unfolding set_status
  set_status-Updates s m = update_job-Updates id _ (λ i. refl) db j h

  pub save_transcript-Updates :
      (t : Text)
      → Updates id
          (record j { transcript = some t; updated_at = now })
          (save_transcript id t now db)
  unfolding save_transcript
  save_transcript-Updates t = update_job-Updates id _ (λ i. refl) db j h

  pub set_pdf_ready-Updates :
      (key : Text)
      → Updates id
          (record j {
            pdf_key = some key;
            status = JobStatus.ready;
            error_message = none;
            updated_at = now;
          })
          (set_pdf_ready id key now db)
  unfolding set_pdf_ready
  set_pdf_ready-Updates key = update_job-Updates id _ (λ i. refl) db j h

pub raw_by_id-add_event :
    (id other : Text) (s : Stage) (st : EventStatus) (m : Option Text) (db : Db)
    → raw_by_id other (add_event id s st m db) ≡ raw_by_id other db
unfolding raw_by_id add_event
raw_by_id-add_event id other s st m db = refl

pub raw_by_id-replace_report :
    (id other : Text) (ss : List ReportSectionInput) (db : Db)
    → raw_by_id other (replace_report id ss db) ≡ raw_by_id other db
unfolding raw_by_id
raw_by_id-replace_report id other ss db = ap (find? (has_id other)) (jobs-replace_report id ss db)

-- An update by id changes only the table of jobs.
pub update_job-tables :
    (id : Text) (f : Job → Job) (db : Db)
    → ((update_job id f db).1.sections ≡ db.sections)
      × ((update_job id f db).1.findings ≡ db.findings)
      × ((update_job id f db).1.next_id ≡ db.next_id)
unfolding update_job update_unique
update_job-tables id f db = elim (Bool-cases (any (has_id id) db.jobs)) [
  | inl e ↦ rw e (refl, refl, refl)
  | inr e ↦ rw e (refl, refl, refl)
]

-- A row that is found by an id has it.
pub raw_by_id-id : (id : Text) (db : Db) (j : Job) → raw_by_id id db ≡ some j → j.id ≡ id
unfolding raw_by_id has_id
raw_by_id-id id db j h = (text_eq_iff j.id id).0 (find?-some_test _ db.jobs j h)

-- The updates of jobs and of reports record no event.
update_job-events :
    (id : Text) (f : Job → Job) (db : Db) → (update_job id f db).1.events ≡ db.events
unfolding update_job update_unique
update_job-events id f db = elim (Bool-cases (any (has_id id) db.jobs)) [
  | inl e ↦ rw e refl
  | inr e ↦ rw e refl
]

module _ (id : Text) (db : Db) (now : ℕ) where
  pub set_status-events :
      (s : JobStatus) (m : Option (Option Text)) → (set_status id s m now db).1.events ≡ db.events
  unfolding set_status
  set_status-events s m = update_job-events id _ db

  pub save_transcript-events : (t : Text) → (save_transcript id t now db).1.events ≡ db.events
  unfolding save_transcript
  save_transcript-events t = update_job-events id _ db

  pub set_pdf_ready-events : (k : Text) → (set_pdf_ready id k now db).1.events ≡ db.events
  unfolding set_pdf_ready
  set_pdf_ready-events k = update_job-events id _ db
