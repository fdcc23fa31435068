-- ===== src/Repository/Isolation.antt =====
-- What the writes to one job leave of the others.
use field_note.Common.{
  ℕ, ◌≡◌, ◌≢◌, refl, ap, ◌∙◌, sym, Option, some, List, Text, text_eq_iff, arith, Option-cases, inl,
  inr, Bool, true, false, any, find?, map, [], ◌∷◌, text_eq, Bool-cases, if◌then◌else◌,
  find?-append_some,
}
use field_note.Database.{JobStatus, Job, Db, Stage, EventStatus, ReportSectionInput, JobWithReport}
use field_note.Result.{gets, modify, throw_if, ◌>>=◌}
use field_note.Repository.{
  has_id, has_owner, is_scoped, update_many, update_label_scoped, soft_delete_scoped,
  replace_report_scoped, load_section, load, update_job, set_status, save_transcript, set_pdf_ready,
  add_event, replace_report, find_by_id, raw_by_id, create_draft, is_taken,
}
use field_note.Repository.Rows.{
  update_job-tables, update_job_other, raw_by_id-add_event, raw_by_id-replace_report, raw_by_id-id,
}
use field_note.Repository.Others.{IsSound, replace_report-IsSound, load-replace_report_other}

-- What another job is, its row and its report, under a write that keeps both.
same_find :
    (other : Text) (db db' : Db)
    → raw_by_id other db' ≡ raw_by_id other db
    → ((j : Job) → j.id ≡ other → load db' j ≡ load db j)
    → find_by_id other db' ≡ find_by_id other db
unfolding find_by_id
same_find other db db' e h = elim (Option-cases (raw_by_id other db)) [
  | inl missing ↦ rw (e, missing) refl
  | inr (j, found) ↦ rw (e, found) (ap some (h j (raw_by_id-id other db j found)))
]

load_of_tables :
    (db db' : Db) (j : Job)
    → db'.sections ≡ db.sections
    → db'.findings ≡ db.findings
    → load db' j ≡ load db j
unfolding load load_section
load_of_tables db db' j e h = rw (e, h) refl

pub IsSound-of_tables :
    (db db' : Db)
    → db'.sections ≡ db.sections
    → db'.findings ≡ db.findings
    → db'.next_id ≡ db.next_id
    → IsSound db
    → IsSound db'
IsSound-of_tables db db' e h n sound = record {
  sections_below = rw (e, n) sound.sections_below;
  findings_below = rw (h, n) sound.findings_below;
  one_owner = rw e sound.one_owner;
}

-- The tables are sound, and `other` is loaded as `r`.
abbrev pub Unchanged : Text → Option JobWithReport → Db → Type 0
Unchanged other r db = IsSound db × (find_by_id other db ≡ r)

module _ (id other : Text) (ne : other ≢ id) (r : Option JobWithReport) (db : Db) where
  update_job-Unchanged :
      (f : Job → Job)
      → ((j : Job) → (f j).id ≡ j.id)
      → Unchanged other r db
      → Unchanged other r (update_job id f db).1
  update_job-Unchanged f keeps (sound, h) =
      let (e, e', n) = update_job-tables id f db in
      (
        IsSound-of_tables db (update_job id f db).1 e e' n sound,
        same_find other db (update_job id f db).1
              (update_job_other id f keeps db other (ground (arith, ne, text_eq_iff id other)))
              (λ j _. load_of_tables db (update_job id f db).1 j e e')
            ∙ h,
      )

  pub set_status-Unchanged :
      (s : JobStatus) (m : Option (Option Text)) (now : ℕ)
      → Unchanged other r db
      → Unchanged other r (set_status id s m now db).1
  unfolding set_status
  set_status-Unchanged s m now = update_job-Unchanged _ (λ j. refl)

  pub save_transcript-Unchanged :
      (t : Text) (now : ℕ)
      → Unchanged other r db
      → Unchanged other r (save_transcript id t now db).1
  unfolding save_transcript
  save_transcript-Unchanged t now = update_job-Unchanged _ (λ j. refl)

  pub set_pdf_ready-Unchanged :
      (key : Text) (now : ℕ)
      → Unchanged other r db
      → Unchanged other r (set_pdf_ready id key now db).1
  unfolding set_pdf_ready
  set_pdf_ready-Unchanged key now = update_job-Unchanged _ (λ j. refl)

  pub add_event-Unchanged :
      (s : Stage) (st : EventStatus) (m : Option Text)
      → Unchanged other r db
      → Unchanged other r (add_event id s st m db)
  unfolding add_event
  add_event-Unchanged s st m (sound, h) = (
    IsSound-of_tables db _ refl refl refl sound,
    same_find other db _ (raw_by_id-add_event id other s st m db)
          (λ j _. load_of_tables db _ j refl refl)
        ∙ h,
  )

  pub replace_report-Unchanged :
      (ss : List ReportSectionInput)
      → Unchanged other r db
      → Unchanged other r (replace_report id ss db)
  replace_report-Unchanged ss (sound, h) = (
    replace_report-IsSound id ss db sound,
    same_find other db (replace_report id ss db) (raw_by_id-replace_report id other ss db)
          (λ j e. load-replace_report_other id j ss db (λ p. ne (sym e ∙ p)) sound)
        ∙ h,
  )

find_untouched :
    (q : Job → Bool) (f : Job → Job) (other : Text) (jobs : List Job)
    → ((j : Job) → q j ≡ true → has_id other j ≡ false)
    → ((j : Job) → (f j).id ≡ j.id)
    → find? (has_id other) (map (λ j. if q j then f j else j) jobs) ≡ find? (has_id other) jobs
unfolding find? has_id
find_untouched q f other [] h keeps = refl
find_untouched q f other (j ∷ jobs) h keeps =
    let rest = find_untouched q f other jobs h keeps in
    elim (Bool-cases (q j)) [
      | inl e ↦ rw (e, keeps j, h j e) rest
      | inr e ↦ rw e (ap (λ r. if text_eq j.id other then some j else r) rest)
    ]

module _ (id other : Text) (ne : other ≢ id) (r : Option JobWithReport) where
  update_many-Unchanged :
      (q : Job → Bool) (f : Job → Job) (db : Db)
      → ((j : Job) → q j ≡ true → has_id id j ≡ true)
      → ((j : Job) → (f j).id ≡ j.id)
      → Unchanged other r db
      → Unchanged other r (update_many q f db)
  unfolding raw_by_id has_id
  update_many-Unchanged q f db reaches keeps (sound, h) = (
    IsSound-of_tables db (update_many q f db) refl refl refl sound,
    same_find other db (update_many q f db)
          (find_untouched q f other db.jobs
            (λ j e.
              let e' = reaches j e in
              ground (arith, ne, text_eq_iff j.id id, text_eq_iff j.id other))
            keeps)
          (λ j _. load_of_tables db (update_many q f db) j refl refl)
        ∙ h,
  )

  scoped-HasId : (user_id : Text) (j : Job) → is_scoped user_id id j ≡ true → has_id id j ≡ true
  unfolding is_scoped
  scoped-HasId user_id j e = ground (arith, e)

  owner-HasId : (user_id : Text) (j : Job) → has_owner user_id id j ≡ true → has_id id j ≡ true
  unfolding has_owner
  owner-HasId user_id j e = ground (arith, e)

  pub update_label-Unchanged :
      (user_id label : Text) (now : ℕ) (db : Db)
      → Unchanged other r db
      → Unchanged other r (update_label_scoped user_id id label now db)
  unfolding update_label_scoped
  update_label-Unchanged user_id label now db =
      update_many-Unchanged _ _ db (scoped-HasId user_id) (λ j. refl)

  pub soft_delete-Unchanged :
      (user_id : Text) (now : ℕ) (db : Db)
      → Unchanged other r db
      → Unchanged other r (soft_delete_scoped user_id id now db).1
  unfolding soft_delete_scoped
  soft_delete-Unchanged user_id now db =
      update_many-Unchanged _ _ db (scoped-HasId user_id) (λ j. refl)

  pub replace_report_scoped-Unchanged :
      (user_id : Text) (label : Option Text) (ss : List ReportSectionInput) (now : ℕ) (db : Db)
      → Unchanged other r db
      → Unchanged other r (replace_report_scoped user_id id label ss now db).1
  unfolding replace_report_scoped ◌>>=◌ gets modify throw_if
  replace_report_scoped-Unchanged user_id label ss now db h =
      elim (Bool-cases (any (is_scoped user_id id) db.jobs)) [
        | inl e ↦ rw e (
            update_many-Unchanged _ _ (replace_report id ss db) (owner-HasId user_id) (λ j. refl)
              (replace_report-Unchanged id other ne r db ss h))
        | inr e ↦ rw e h
      ]

-- A new row leaves the jobs that there are.
pub create_draft-Unchanged :
    (other : Text) (r : JobWithReport) (db : Db) (id user_id label key : Text) (k : Option Text)
    (now : ℕ)
    → Unchanged other (some r) db
    → Unchanged other (some r) (create_draft id user_id label key k now db).1
unfolding create_draft find_by_id raw_by_id load
create_draft-Unchanged other r db id user_id label key k now (sound, same) =
    elim (Bool-cases (is_taken id user_id k db)) [
      | inl taken ↦ rw taken (sound, same)
      | inr free ↦ elim (Option-cases (find? (has_id other) db.jobs)) [
        | inl missing ↦ absurd (cc (rw missing at same))
        | inr (j, found) ↦
            rw (free, find?-append_some (has_id other) db.jobs _ j found)
              (IsSound-of_tables db _ refl refl refl sound, rw found at same)
      ]
    ]
