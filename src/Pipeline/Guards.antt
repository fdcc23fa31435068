-- ===== src/Pipeline/Guards.antt =====
-- The checks before the stages.
use field_note.Common.{
  ◌≡◌, ◌≢◌, refl, ◌∙◌, true, false, none, some, is_some, text_eq, text_eq_iff, text_eq_refl, arith,
}
use field_note.Result.{ok, err, pure, throw, ◌>>=◌}
use field_note.Database.{Db, JobStatus, Job}
use field_note.Repository.{raw_by_id, find_by_id, load, load_some}
use field_note.World.{World, select, ProcessJobData, Services, Config}
use field_note.Pipeline.{process_audio, process_found, process, is_ready, owner_mismatch}

pub is_ready_iff : (s : JobStatus) → is_ready s ≡ true → s ≡ JobStatus.ready
is_ready_iff s h = ground arith

pub not_ready : (s : JobStatus) → is_ready s ≡ false → s ≢ JobStatus.ready
not_ready s h = ground arith

-- A payload that may run: its job is there, live, owned by its user, and not READY.
pub record IsRunnable (d : ProcessJobData) (db : Db) (j : Job) : Type 0 where
  pub found : raw_by_id d.job_id db ≡ some j
  pub live : j.deleted_at ≡ none
  pub owned : j.user_id ≡ d.user_id
  pub unfinished : j.status ≢ JobStatus.ready

module _ {C : Type 0} (S : Services C) (cfg : Config) (d : ProcessJobData) (w : World C) where
  process_missing : raw_by_id d.job_id w.db ≡ none → process S cfg d w ≡ (ok tt, w)
  unfolding process process_found ◌>>=◌ select find_by_id pure
  process_missing h = rw (h, load_some) refl

  process_at :
      (j : Job)
      → raw_by_id d.job_id w.db ≡ some j
      → process S cfg d w ≡ process_found S cfg d (some (load w.db j)) w
  unfolding process ◌>>=◌ select find_by_id
  process_at j h = rw h refl

  -- A soft-deleted job is skipped.
  pub process_deleted :
      (j : Job)
      → raw_by_id d.job_id w.db ≡ some j
      → is_some j.deleted_at ≡ true
      → process S cfg d w ≡ (ok tt, w)
  unfolding process_found load pure
  process_deleted j found h = process_at j found ∙ rw h refl

  -- A payload whose user is not the owner of its job, which is not deleted, is refused and nothing
  -- changes, whatever the job's status is, so also where the job is READY.
  pub process-owner_mismatch :
      (j : Job)
      → raw_by_id d.job_id w.db ≡ some j
      → j.deleted_at ≡ none
      → j.user_id ≢ d.user_id
      → process S cfg d w ≡ (err (owner_mismatch d.job_id), w)
  unfolding process_found load throw
  process-owner_mismatch j found live other =
      let mismatch : text_eq j.user_id d.user_id ≡ false =
        ground (arith, text_eq_iff j.user_id d.user_id) in
      process_at j found ∙ rw (live, mismatch) refl

  pub process_ready :
      (j : Job)
      → raw_by_id d.job_id w.db ≡ some j
      → j.deleted_at ≡ none
      → j.user_id ≡ d.user_id
      → is_ready j.status ≡ true
      → process S cfg d w ≡ (ok tt, w)
  unfolding process_found load pure
  process_ready j found live owned ready =
      process_at j found ∙ rw (live, owned, text_eq_refl d.user_id, ready) refl

  pub process_runs :
      (j : Job)
      → raw_by_id d.job_id w.db ≡ some j
      → j.deleted_at ≡ none
      → j.user_id ≡ d.user_id
      → is_ready j.status ≡ false
      → process S cfg d w ≡ process_audio S cfg d (load w.db j) j.audio_key w
  unfolding process_found load
  process_runs j found live owned unready =
      let own : text_eq j.user_id d.user_id ≡ true = rw owned (text_eq_refl d.user_id) in
      process_at j found ∙ simp (live, own, unready)
