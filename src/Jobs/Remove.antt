-- ===== src/Jobs/Remove.antt =====
-- What a delete leaves.
use field_note.Common.{
  ◌≡◌, refl, ap, ◌∙◌, Bool, false, none, some, List, [], ◌∷◌, Text, find?, arith, count, ◌==◌,
}
use field_note.Result.{Result, ok, err, pure, try_catch, ◌>>=◌, handle}
use field_note.Database.{Db, Job, JobWithReport}
use field_note.World.{World, at_now, Services, Config}
use field_note.World.Keeps.{Keeps, Keeps-pure, Keeps-try_catch}
use field_note.Repository.{is_scoped, soft_delete_scoped, load}
use field_note.Repository.Scoped.{scoped_row, soft_delete-scoped}
use field_note.Media.Keeps.{delete_objects-Keeps}
use field_note.Jobs.{job_not_found, find_one, get_pdf_url, process, remove, remove_objects}
use field_note.Jobs.Owned.{owned_found, owned_missing}

counted :
    (p : Job → Bool) (jobs : List Job) (j : Job)
    → find? p jobs ≡ some j
    → (count p jobs == 0) ≡ false
unfolding count find?
counted p [] j h = ground arith
counted p (i ∷ jobs) j h = ground (arith, counted p jobs j)

module _ {C : Type 0} (S : Services C) where
  pub remove_objects-Keeps :
      (P : Db → Type 0) (job : JobWithReport) → Keeps P (remove_objects S job)
  unfolding remove_objects
  remove_objects-Keeps P job = Keeps-try_catch _ _ (delete_objects-Keeps S _) (λ e. Keeps-pure tt)

  swallowed : (r : Result (Unit {0})) (w : World C) → (handle r (λ e. pure tt) w).0 ≡ ok tt
  unfolding pure
  swallowed (ok tt) w = refl
  swallowed (err e) w = refl

  remove_objects_returns : (job : JobWithReport) (w : World C) → (remove_objects S job w).0 ≡ ok tt
  unfolding remove_objects try_catch
  remove_objects_returns job w = swallowed _ _

  -- The row is gone, whatever becomes of the objects.
  removed_world : (user_id job_id : Text) (w : World C) → World C
  unfolding soft_delete_scoped
  removed_world user_id job_id w = record w {
    db = (soft_delete_scoped user_id job_id (S.now w.cloud) w.db).1;
  }

  remove_found :
      (user_id job_id : Text) (w : World C) (j : Job)
      → scoped_row user_id job_id w.db ≡ some j
      → remove S user_id job_id w ≡ remove_objects S (load w.db j) (removed_world user_id job_id w)
  unfolding remove ◌>>=◌ at_now soft_delete_scoped removed_world
  remove_found user_id job_id w j h =
      owned_found user_id job_id _ w j h
      ∙ rw (counted (is_scoped user_id job_id) w.db.jobs j h) refl

  -- A delete of a live job of the user returns, also where the bucket refuses to delete the
  -- objects, and from then on the job is not found by a read, a start or a request of its PDF.
  pub remove_hides :
      (cfg : Config) (user_id job_id : Text) (w : World C) (j : Job)
      → scoped_row user_id job_id w.db ≡ some j
      → ((remove S user_id job_id w).0 ≡ ok tt)
        × (find_one S cfg user_id job_id (remove S user_id job_id w).1
            ≡ (err job_not_found, (remove S user_id job_id w).1))
        × (process S cfg user_id job_id (remove S user_id job_id w).1
            ≡ (err job_not_found, (remove S user_id job_id w).1))
        × (get_pdf_url S cfg user_id job_id (remove S user_id job_id w).1
            ≡ (err job_not_found, (remove S user_id job_id w).1))
  unfolding find_one process get_pdf_url removed_world
  remove_hides cfg user_id job_id w j h =
      let e = remove_found user_id job_id w j h in
      let gone : scoped_row user_id job_id (remove S user_id job_id w).1.db ≡ none = rw e (
        (remove_objects-Keeps (λ db. scoped_row user_id job_id db ≡ none) (load w.db j)).at
          (removed_world user_id job_id w)
          (soft_delete-scoped user_id job_id (S.now w.cloud) w.db)) in
      (
        ap (λ z. z.0) e ∙ remove_objects_returns (load w.db j) (removed_world user_id job_id w),
        owned_missing user_id job_id _ _ gone,
        owned_missing user_id job_id _ _ gone,
        owned_missing user_id job_id _ _ gone,
      )
