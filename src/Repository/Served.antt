-- ===== src/Repository/Served.antt =====
-- server/src/jobs/jobs.repository.ts: updates keep the ids of the jobs distinct, and the READY ones
-- with their documents.
use field_note.Common.{
  ◌≡◌, ◌≢◌, refl, ◌∙◌, sym, Bool, inl, inr, Bool-cases, none, List, [], ◌∷◌, map, Text, any,
  HaveKeys, All, if◌then◌else◌,
}
use field_note.Database.{Db, Job, JobStatus}
use field_note.Repository.{has_id, update_unique, update_job}

-- A READY job has the key of its document.
abbrev pub IsServed : Job → Type 0
IsServed j = j.status ≡ JobStatus.ready → j.pdf_key ≢ none

-- Rows whose ids are distinct, and whose READY ones have their documents.
pub record AreRows (jobs : List Job) : Type 0 where
  pub ids : HaveKeys (λ (j : Job). j.id) jobs
  pub served : All IsServed jobs

module _ (q : Job → Bool) (f : Job → Job) (keeps : (j : Job) → (f j).id ≡ j.id) where
  abbrev changed : Job → Job
  changed j = if q j then f j else j

  changed-id : (j : Job) → (changed j).id ≡ j.id
  changed-id j = elim (Bool-cases (q j)) [ inl e ↦ rw e (keeps j) | inr e ↦ rw e refl ]

  apart :
      (x : Job) (js : List Job)
      → All (λ (y : Job). y.id ≡ x.id → ⊥) js
      → All (λ (y : Job). y.id ≡ (changed x).id → ⊥) (map changed js)
  apart x [] h = tt
  apart x (y ∷ js) h = (λ e. h.0 (sym (changed-id y) ∙ e ∙ changed-id x), apart x js h.1)

  changed-HaveKeys :
      (js : List Job)
      → HaveKeys (λ (j : Job). j.id) js
      → HaveKeys (λ (j : Job). j.id) (map changed js)
  changed-HaveKeys [] h = tt
  changed-HaveKeys (x ∷ js) h = (apart x js h.0, changed-HaveKeys js h.1)

  changed-IsServed :
      ((j : Job) → IsServed j → IsServed (f j))
      → (js : List Job) → All IsServed js
      → All IsServed (map changed js)
  changed-IsServed s [] h = tt
  changed-IsServed s (x ∷ js) h = elim (Bool-cases (q x)) [
    | inl e ↦ rw e (s x h.0, changed-IsServed s js h.1)
    | inr e ↦ rw e (h.0, changed-IsServed s js h.1)
  ]

  pub changed-AreRows :
      ((j : Job) → IsServed j → IsServed (f j))
      → (js : List Job) → AreRows js
      → AreRows (map changed js)
  changed-AreRows s js h = record {
    ids = changed-HaveKeys js h.ids;
    served = changed-IsServed s js h.served;
  }

pub update_job-AreRows :
    (id : Text) (f : Job → Job) (db : Db)
    → ((j : Job) → (f j).id ≡ j.id)
    → ((j : Job) → IsServed j → IsServed (f j))
    → AreRows db.jobs
    → AreRows (update_job id f db).1.jobs
unfolding update_job update_unique
update_job-AreRows id f db keeps s h = elim (Bool-cases (any (has_id id) db.jobs)) [
  | inl e ↦ rw e (changed-AreRows (has_id id) f keeps s db.jobs h)
  | inr e ↦ rw e h
]
