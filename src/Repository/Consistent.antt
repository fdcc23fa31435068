-- ===== src/Repository/Consistent.antt =====
-- What holds of the tables of jobs and reports after every write.
use field_note.Common.{
  ℕ, ◌≡◌, ◌≢◌, refl, false, inl, inr, Bool-cases, Option, List, [], ◌∷◌, ◌++◌, Text, any,
  All-map_of, text_eq_iff, arith, append-HaveKeys, All-append,
}
use field_note.Result.{gets, modify, throw_if, ◌>>=◌}
use field_note.Database.{Db, Job, JobStatus, Stage, EventStatus, ReportSectionInput}
use field_note.Repository.Report.{jobs-replace_report}
use field_note.Repository.Others.{IsSound, replace_report-IsSound}
use field_note.Repository.Pages.{any-All}
use field_note.Repository.Inserts.{untaken}
use field_note.Repository.Isolation.{
  IsSound-of_tables, Unchanged, set_status-Unchanged, save_transcript-Unchanged,
  set_pdf_ready-Unchanged, add_event-Unchanged, update_label-Unchanged, soft_delete-Unchanged,
  replace_report_scoped-Unchanged,
}
use field_note.Repository.{
  has_id, is_scoped, has_owner, is_taken, draft, create_draft, update_label_scoped,
  replace_report_scoped, soft_delete_scoped, set_status, save_transcript, replace_report,
  set_pdf_ready, add_event, find_by_id,
}
use field_note.Repository.Served.{IsServed, changed-AreRows, update_job-AreRows, AreRows}

-- The rows and the report tables.
pub record IsConsistent (db : Db) : Type 0 where
  pub rows : AreRows db.jobs
  pub sound : IsSound db

-- A write that leaves the report of a job that is not there sound leaves the tables sound.
module _ (id : Text) (db : Db) where
  elsewhere : Text
  elsewhere = 0 ∷ id

  elsewhere_ne : elsewhere ≢ id
  unfolding elsewhere
  elsewhere_ne e = longer id e
    where
      longer : (t : Text) → 0 ∷ t ≡ t → ⊥
      longer [] p = ground (arith, p)
      longer (x ∷ t) p = ground (arith, p, longer t)

  sound_at : IsSound db → Unchanged elsewhere (find_by_id elsewhere db) db
  sound_at h = (h, refl)

module _ (id : Text) (db : Db) (h : IsConsistent db) where
  pub set_status-IsConsistent :
      (s : JobStatus) (m : Option (Option Text)) (now : ℕ)
      → s ≢ JobStatus.ready
      → IsConsistent (set_status id s m now db).1
  unfolding set_status
  set_status-IsConsistent s m now ne = record {
    rows = update_job-AreRows id _ db (λ j. refl) (λ j served e. absurd (ne e)) h.rows;
    sound =
        (set_status-Unchanged id (elsewhere id db) (elsewhere_ne id db) _ db s m now
          (sound_at id db h.sound)).0;
  }

  pub save_transcript-IsConsistent :
      (t : Text) (now : ℕ) → IsConsistent (save_transcript id t now db).1
  unfolding save_transcript
  save_transcript-IsConsistent t now = record {
    rows = update_job-AreRows id _ db (λ j. refl) (λ j served e. served e) h.rows;
    sound =
        (save_transcript-Unchanged id (elsewhere id db) (elsewhere_ne id db) _ db t now
          (sound_at id db h.sound)).0;
  }

  pub set_pdf_ready-IsConsistent :
      (key : Text) (now : ℕ) → IsConsistent (set_pdf_ready id key now db).1
  unfolding set_pdf_ready
  set_pdf_ready-IsConsistent key now = record {
    rows = update_job-AreRows id _ db (λ j. refl) (λ j served e p. ground (arith, p)) h.rows;
    sound =
        (set_pdf_ready-Unchanged id (elsewhere id db) (elsewhere_ne id db) _ db key now
          (sound_at id db h.sound)).0;
  }

  pub replace_report-IsConsistent :
      (ss : List ReportSectionInput) → IsConsistent (replace_report id ss db)
  replace_report-IsConsistent ss = record {
    rows = rw (jobs-replace_report id ss db) h.rows;
    sound = replace_report-IsSound id ss db h.sound;
  }

  pub add_event-IsConsistent :
      (s : Stage) (st : EventStatus) (m : Option Text) → IsConsistent (add_event id s st m db)
  unfolding add_event
  add_event-IsConsistent s st m = record {
    rows = h.rows;
    sound =
        (add_event-Unchanged id (elsewhere id db) (elsewhere_ne id db) _ db s st m
          (sound_at id db h.sound)).0;
  }

  pub update_label-IsConsistent :
      (user_id label : Text) (now : ℕ) → IsConsistent (update_label_scoped user_id id label now db)
  unfolding update_label_scoped
  update_label-IsConsistent user_id label now = record {
    rows =
        changed-AreRows (is_scoped user_id id) _ (λ j. refl) (λ j served e. served e) db.jobs
          h.rows;
    sound =
        (update_label-Unchanged id (elsewhere id db) (elsewhere_ne id db) _ user_id label now db
          (sound_at id db h.sound)).0;
  }

  pub soft_delete-IsConsistent :
      (user_id : Text) (now : ℕ) → IsConsistent (soft_delete_scoped user_id id now db).1
  unfolding soft_delete_scoped
  soft_delete-IsConsistent user_id now = record {
    rows =
        changed-AreRows (is_scoped user_id id) _ (λ j. refl) (λ j served e. served e) db.jobs
          h.rows;
    sound =
        (soft_delete-Unchanged id (elsewhere id db) (elsewhere_ne id db) _ user_id now db
          (sound_at id db h.sound)).0;
  }

  edit-AreRows :
      (user_id : Text) (label : Option Text) (ss : List ReportSectionInput) (now : ℕ)
      → AreRows (replace_report_scoped user_id id label ss now db).1.jobs
  unfolding replace_report_scoped ◌>>=◌ gets modify throw_if
  edit-AreRows user_id label ss now = elim (Bool-cases (any (is_scoped user_id id) db.jobs)) [
    | inr e ↦ rw e h.rows
    | inl e ↦ rw e (
        changed-AreRows (has_owner user_id id) _ (λ j. refl) (λ j served p. served p)
          (replace_report id ss db).jobs (rw (jobs-replace_report id ss db) h.rows))
  ]

  pub edit-IsConsistent :
      (user_id : Text) (label : Option Text) (ss : List ReportSectionInput) (now : ℕ)
      → IsConsistent (replace_report_scoped user_id id label ss now db).1
  edit-IsConsistent user_id label ss now = record {
    rows = edit-AreRows user_id label ss now;
    sound =
        (replace_report_scoped-Unchanged id (elsewhere id db) (elsewhere_ne id db) _ user_id label
          ss now db (sound_at id db h.sound)).0;
  }

pub has_id_other : (y x : Job) → has_id x.id y ≡ false → y.id ≢ x.id
unfolding has_id
has_id_other y x e p = ground (arith, e, text_eq_iff y.id x.id)

append-AreRows :
    (js : List Job) (x : Job)
    → any (has_id x.id) js ≡ false
    → IsServed x
    → AreRows js
    → AreRows (js ++ x ∷ [])
append-AreRows js x fresh served h = record {
  ids =
      append-HaveKeys (λ (j : Job). j.id) js x
        (All-map_of _ _ js (λ y e p. has_id_other y x e p) (any-All (has_id x.id) js fresh)) h.ids;
  served = All-append IsServed js (x ∷ []) h.served (served, tt);
}

pub create_draft-IsConsistent :
    (id user_id label key : Text) (k : Option Text) (now : ℕ) (db : Db)
    → IsConsistent db
    → IsConsistent (create_draft id user_id label key k now db).1
unfolding create_draft draft
create_draft-IsConsistent id user_id label key k now db h =
    elim (Bool-cases (is_taken id user_id k db)) [
      | inl taken ↦ rw taken h
      | inr free ↦ rw free (record {
        rows =
            append-AreRows db.jobs (draft id user_id label key k now) (untaken id user_id k db free)
              (λ e. ground (arith, e)) h.rows;
        sound = IsSound-of_tables db _ refl refl refl h.sound;
      })
    ]
