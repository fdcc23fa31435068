-- ===== src/Processor/Eligible.antt =====
-- A job that a worker may run, which every write of a run leaves so:
-- server/src/processing/pipeline/pipeline.service.ts.
use field_note.Common.{◌≡◌, refl, ◌∙◌, ◌⊎◌, none, some, Text}
use field_note.Database.{Db, JobStatus, Job}
use field_note.Repository.{raw_by_id}
use field_note.Repository.Rows.{
  set_status-Updates, save_transcript-Updates, set_pdf_ready-Updates, raw_by_id-add_event,
  raw_by_id-replace_report,
}
use field_note.World.{ProcessJobData}
use field_note.Pipeline.Keeps.{WritesKeep}

-- The job is there, not deleted, the payload's user's, and has its audio key.
pub record IsEligible (d : ProcessJobData) (key : Text) (db : Db) : Type 0 where
  pub row : Job
  pub found : raw_by_id d.job_id db ≡ some row
  pub live : row.deleted_at ≡ none
  pub owned : row.user_id ≡ d.user_id
  pub has_key : row.audio_key ≡ some key

-- The job is READY or FAILED.
pub record IsFinished (d : ProcessJobData) (db : Db) : Type 0 where
  pub row : Job
  pub found : raw_by_id d.job_id db ≡ some row
  pub is_final : (row.status ≡ JobStatus.ready) ⊎ (row.status ≡ JobStatus.failed)

moved :
    (d : ProcessJobData) (key : Text) (db db' : Db) (h : IsEligible d key db) (j : Job)
    → raw_by_id d.job_id db' ≡ some j
    → (j.deleted_at ≡ h.row.deleted_at)
      × (j.user_id ≡ h.row.user_id)
      × (j.audio_key ≡ h.row.audio_key)
    → IsEligible d key db'
moved d key db db' h j found (a, b, c) = record {
  row = j;
  found = found;
  live = a ∙ h.live;
  owned = b ∙ h.owned;
  has_key = c ∙ h.has_key;
}

pub IsEligible-WritesKeep :
    (d : ProcessJobData) (key : Text) → WritesKeep (IsEligible d key) d.job_id
IsEligible-WritesKeep d key = record {
  stages = record {
    status = λ s now db own h.
        moved d key db _ h _ (set_status-Updates d.job_id now db h.row h.found s none).1
          (refl, refl, refl);
    transcript = λ t now db h.
        moved d key db _ h _ (save_transcript-Updates d.job_id now db h.row h.found t).1
          (refl, refl, refl);
    report = λ ss db h.
        moved d key db _ h h.row (raw_by_id-replace_report d.job_id d.job_id ss db ∙ h.found)
          (refl, refl, refl);
    pdf = λ k now db h.
        moved d key db _ h _ (set_pdf_ready-Updates d.job_id now db h.row h.found k).1
          (refl, refl, refl);
    event = λ s st m db h.
        moved d key db _ h h.row (raw_by_id-add_event d.job_id d.job_id s st m db ∙ h.found)
          (refl, refl, refl);
  };
  failure = λ m now db h.
      moved d key db _ h _
        (set_status-Updates d.job_id now db h.row h.found JobStatus.failed (some (some m))).1
        (refl, refl, refl);
}
