-- ===== src/Repository/Scoped.antt =====
-- The live row of a user's job under the updates.
use field_note.Common.{
  ℕ, ◌≡◌, refl, ap, ◌∙◌, sym, Bool, true, false, Option, none, some, List, [], ◌∷◌, map, Text,
  find?, any, or_else, is_none, find?-map_if, if◌then◌else◌, arith, All, ◌≢◌, text_eq_iff,
  find?-some_test,
}
use mathlib.Core.Option
use field_note.Result.{ok, gets, modify, throw_if, ◌>>=◌}
use field_note.Database.{Db, Job, JobStatus, ReportSectionInput}
use field_note.Repository.Report.{load-replace_report, jobs-replace_report}
use field_note.Repository.Written.{IsFresh, as_input}
use field_note.Repository.{
  load, has_id, is_scoped, has_owner, update_unique, update_job, set_status, update_many,
  update_label_scoped, soft_delete_scoped, replace_report_scoped, replace_report,
}

-- The live row of the user's job.
abbrev pub scoped_row : Text → Text → Db → Option Job
scoped_row user_id job_id db = find? (is_scoped user_id job_id) db.jobs

any_where :
    (p q : Job → Bool) (jobs : List Job) (j : Job)
    → ((x : Job) → p x ≡ true → q x ≡ true)
    → find? p jobs ≡ some j
    → any q jobs ≡ true
unfolding find? any
any_where p q [] j f h = ground arith
any_where p q (i ∷ jobs) j f h = ground (arith, f i, any_where p q jobs j f)

scoped-HasId :
    (user_id job_id : Text) (j : Job) → is_scoped user_id job_id j ≡ true → has_id job_id j ≡ true
unfolding is_scoped
scoped-HasId user_id job_id j h = ground arith

module _ (user_id job_id : Text) (db : Db) (j : Job)
    (h : scoped_row user_id job_id db ≡ some j) where
  pub set_status-scoped :
      (s : JobStatus) (m : Option (Option Text)) (now : ℕ)
      → ((set_status job_id s m now db).0 ≡ ok tt)
        × (scoped_row user_id job_id (set_status job_id s m now db).1
            ≡ some (record j {
              status = s;
              error_message = or_else m j.error_message;
              updated_at = now;
            }))
  unfolding set_status update_job update_unique is_scoped has_id
  set_status-scoped s m now =
      rw
        (any_where (is_scoped user_id job_id) (has_id job_id) db.jobs j
          (scoped-HasId user_id job_id) h)
        (
          refl,
          find?-map_if (is_scoped user_id job_id) (has_id job_id) _ db.jobs (λ i. refl)
                (scoped-HasId user_id job_id)
              ∙ ap (Option.map _) h,
        )

  pub update_label-scoped :
      (label : Text) (now : ℕ)
      → scoped_row user_id job_id (update_label_scoped user_id job_id label now db)
        ≡ some (record j { label = label; updated_at = now })
  unfolding update_label_scoped is_scoped has_id
  update_label-scoped label now =
      find?-map_if (is_scoped user_id job_id) (is_scoped user_id job_id) _ db.jobs (λ i. refl)
        (λ i e. e)
      ∙ ap (Option.map _) h

soft_deleted_jobs :
    (user_id job_id : Text) (now : ℕ) (jobs : List Job)
    → find? (is_scoped user_id job_id) (
        map
          (λ (j : Job).
            if is_scoped user_id job_id j
            then (record j { deleted_at = some now; updated_at = now })
            else j)
          jobs)
      ≡ none
unfolding find? is_scoped has_id
soft_deleted_jobs user_id job_id now [] = refl
soft_deleted_jobs user_id job_id now (j ∷ jobs) =
    ground (arith, soft_deleted_jobs user_id job_id now jobs)

-- After a soft delete the user has no live job of that id.
pub soft_delete-scoped :
    (user_id job_id : Text) (now : ℕ) (db : Db)
    → scoped_row user_id job_id (soft_delete_scoped user_id job_id now db).1 ≡ none
unfolding soft_delete_scoped
soft_delete-scoped user_id job_id now db = soft_deleted_jobs user_id job_id now db.jobs

-- The row that an edit leaves.
abbrev pub edited : Option Text → ℕ → Job → Job
edited label now j = record j { label = or_else label j.label; updated_at = now }

module _ (user_id job_id : Text) (db : Db) (j : Job) (h : scoped_row user_id job_id db ≡ some j)
    (label : Option Text) (ss : List ReportSectionInput) (now : ℕ) where
  is_this : is_scoped user_id job_id j ≡ true
  is_this = find?-some_test _ db.jobs j h

  this_id : j.id ≡ job_id
  unfolding is_scoped has_id
  this_id = let e = is_this in ground (arith, e, text_eq_iff j.id job_id)

  replaced_db : replace_report_scoped user_id job_id label ss now db ≡ (
    ok tt,
    update_many
        (has_owner user_id job_id)
        (λ i. record i { label = or_else label i.label; updated_at = now })
        (replace_report job_id ss db),
  )
  unfolding replace_report_scoped ◌>>=◌ gets modify throw_if
  replaced_db =
      rw (any_where (is_scoped user_id job_id) (is_scoped user_id job_id) db.jobs j (λ i e. e) h)
        refl

  -- An edit of a live job succeeds, sets its label where one is given, and what it wrote is read back.
  pub replace_report-scoped :
      IsFresh db
      → ((replace_report_scoped user_id job_id label ss now db).0 ≡ ok tt)
        × (scoped_row user_id job_id (replace_report_scoped user_id job_id label ss now db).1
            ≡ some (edited label now j))
        × (map as_input
              (load
                (replace_report_scoped user_id job_id label ss now db).1
                (edited label now j)).sections
            ≡ ss)
  unfolding load is_scoped has_id has_owner
  replace_report-scoped fresh =
      let p = is_scoped user_id job_id in
      let keeps : map as_input (load (replace_report job_id ss db) j).sections ≡ ss =
        ap (λ k. map as_input (load (replace_report k ss db) j).sections) (sym this_id)
        ∙ load-replace_report j ss db fresh in
      rw replaced_db (
        refl,
        ap
              (λ js.
                find? p
                  (map (λ i. if has_owner user_id job_id i then edited label now i else i) js))
              (jobs-replace_report job_id ss db)
            ∙ find?-map_if p (has_owner user_id job_id) (edited label now) db.jobs (λ i. refl)
                (λ i e. ground (arith, e))
            ∙ ap (Option.map (edited label now)) h,
        keeps,
      )

-- No job of that id is the user's and live.
abbrev pub IsHidden : Text → Text → Db → Type 0
IsHidden user_id job_id db =
    All (λ j. j.id ≡ job_id → j.user_id ≡ user_id → j.deleted_at ≢ none) db.jobs

is_none_iff : {A : Type 0} → (o : Option A) → is_none o ≡ true → o ≡ none
is_none_iff none h = refl
is_none_iff (some a) h = ground arith

module _ (user_id job_id : Text) where
  scoped-IsHidden :
      (j : Job)
      → (j.id ≡ job_id → j.user_id ≡ user_id → j.deleted_at ≢ none)
      → is_scoped user_id job_id j ≡ false
  unfolding is_scoped has_id
  scoped-IsHidden j h =
      ground
        (arith, h, text_eq_iff j.id job_id, text_eq_iff j.user_id user_id, is_none_iff j.deleted_at)

  hidden_jobs :
      (jobs : List Job)
      → All (λ j. j.id ≡ job_id → j.user_id ≡ user_id → j.deleted_at ≢ none) jobs
      → find? (is_scoped user_id job_id) jobs ≡ none
  unfolding find?
  hidden_jobs [] h = refl
  hidden_jobs (j ∷ jobs) h = rw (scoped-IsHidden j h.0) (hidden_jobs jobs h.1)

  pub scoped_row_hidden :
      (db : Db) → IsHidden user_id job_id db → scoped_row user_id job_id db ≡ none
  scoped_row_hidden db h = hidden_jobs db.jobs h
