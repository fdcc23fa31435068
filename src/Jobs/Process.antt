-- ===== src/Jobs/Process.antt =====
-- Starting the pipeline of a job.
use field_note.Common.{ℕ, ◌≡◌, refl, ap, ◌∙◌, true, false, none, some, Text, or_else, arith, sym}
use field_note.Result.{Error, Result, ok, err, pure, ◌>>=◌, ◌>>◌}
use field_note.Database.{Db, Job, JobStatus}
use field_note.World.{World, select, Services, Config}
use field_note.Repository.{find_scoped, load, set_status}
use field_note.Media.{audio_key, object_exists}
use field_note.Queue.{enqueue_processing, enqueue_processing-Keeps}
use field_note.Pipeline.{is_ready}
use field_note.Jobs.Dto.{job_to_dto}
use field_note.Jobs.{in_flight, process, process_owned, start_checked, start_if, start}
use field_note.World.Keeps.{
  Keeps, Keeps-bind, Keeps-call, Keeps-if, Keeps-pure, Keeps-throw, Keeps-try_catch,
}
use field_note.World.Returns.{at_now_then}
use field_note.Repository.Scoped.{scoped_row, set_status-scoped}
use field_note.Jobs.Owned.{owned_found}

module _ {C : Type 0} (S : Services C) (cfg : Config) (user_id job_id : Text) (w : World C)
    (j : Job) where
  -- A job that is queued or in a stage is returned as it is: nothing is written and nothing is
  -- enqueued.
  pub process-in_flight :
      scoped_row user_id job_id w.db ≡ some j
      → in_flight j.status ≡ true
      → process S cfg user_id job_id w ≡ (ok (job_to_dto (load w.db j) none), w)
  unfolding process process_owned load pure
  process-in_flight found h =
      let unready : is_ready j.status ≡ false = ground arith in
      owned_found user_id job_id _ w j found ∙ rw (unready, h) refl

  process_idle :
      scoped_row user_id job_id w.db ≡ some j
      → in_flight j.status ≡ false
      → is_ready j.status ≡ false
      → process S cfg user_id job_id w ≡ start_checked S cfg user_id job_id (load w.db j) w
  unfolding process process_owned load
  process_idle found h unready = owned_found user_id job_id _ w j found ∙ rw (unready, h) refl

  start_uploaded :
      (w' : World C)
      → scoped_row user_id job_id w.db ≡ some j
      → in_flight j.status ≡ false
      → is_ready j.status ≡ false
      → object_exists S (or_else j.audio_key (audio_key user_id job_id)) w ≡ (ok true, w')
      → process S cfg user_id job_id w ≡ start S cfg user_id job_id (load w.db j) w'
  unfolding start_checked start_if ◌>>=◌ load
  start_uploaded w' found h unready there = process_idle found h unready ∙ rw there refl

module _ {C : Type 0} (S : Services C) (k : Text) where
  pub object_exists-Keeps : (P : Db → Type 0) → Keeps P (object_exists S k)
  unfolding object_exists
  object_exists-Keeps P =
      Keeps-try_catch _ _ (Keeps-bind _ _ (Keeps-call _) (λ x. Keeps-pure true))
        (λ e. Keeps-if _ _ _ (Keeps-pure false) (Keeps-throw e))

  object_exists-db : (w : World C) → (object_exists S k w).1.db ≡ w.db
  object_exists-db w = (object_exists-Keeps (λ db. db ≡ w.db)).at w refl

-- The row of a job that `process` has queued.
abbrev pub queued : ℕ → Job → Job
queued now j = record j { status = JobStatus.queued; error_message = none; updated_at = now }

-- An uploaded job that is neither READY nor in flight, up to the call of the queue: `w'` is the
-- world after the bucket was asked.
pub record IsStartable {C : Type 0} (S : Services C) (user_id job_id : Text) (w w' : World C)
    (j : Job) : Type 0 where
  pub found : scoped_row user_id job_id w.db ≡ some j
  pub idle : in_flight j.status ≡ false
  pub unready : is_ready j.status ≡ false
  pub uploaded : object_exists S (or_else j.audio_key (audio_key user_id job_id)) w ≡ (ok true, w')

module _ {C : Type 0} (S : Services C) (cfg : Config) (user_id job_id : Text) (w w' w'' : World C)
    (j : Job) where
  -- The world that the queue is called in.
  abbrev pub queued_world : World C
  queued_world = record w' {
    db = (set_status job_id JobStatus.queued (some none) (S.now w'.cloud) w'.db).1;
  }

  abbrev pub Enqueues : Result (Unit {0}) → Type 0
  Enqueues r =
      enqueue_processing S cfg (record { job_id = job_id; user_id = user_id }) queued_world
      ≡ (r, w'')

  same_db : IsStartable S user_id job_id w w' j → w'.db ≡ w.db
  same_db h = ap (λ z. z.1.db) (sym h.uploaded) ∙ object_exists-db S _ w

  queued_row :
      (r : Result (Unit {0}))
      → IsStartable S user_id job_id w w' j
      → Enqueues r
      → scoped_row user_id job_id w''.db ≡ some (queued (S.now w'.cloud) j)
  queued_row r h q =
      let set =
        set_status-scoped user_id job_id w'.db j (rw (same_db h) h.found) JobStatus.queued
          (some none) (S.now w'.cloud) in
      let same : w''.db ≡ queued_world.db =
        ap (λ z. z.1.db) (sym q)
        ∙ (enqueue_processing-Keeps S cfg (λ db. db ≡ queued_world.db) _).at queued_world refl in
      rw same set.1

  start_enqueues :
      IsStartable S user_id job_id w w' j
      → process S cfg user_id job_id w
        ≡ (enqueue_processing S cfg (record { job_id = job_id; user_id = user_id })
              >> (select (find_scoped user_id job_id) >>= λ refreshed.
                  pure (job_to_dto (or_else refreshed (load w.db j)) none)))
            queued_world
  unfolding start
  start_enqueues h =
      let set =
        set_status-scoped user_id job_id w'.db j (rw (same_db h) h.found) JobStatus.queued
          (some none) (S.now w'.cloud) in
      start_uploaded S cfg user_id job_id w j w' h.found h.idle h.unready h.uploaded
      ∙ at_now_then S (set_status job_id JobStatus.queued (some none)) _ w' tt set.0

  -- A live job of the user whose audio is uploaded and that is neither READY nor in flight is left
  -- QUEUED, without an error message, and returned as such, once the queue has taken it.
  pub process_queues :
      IsStartable S user_id job_id w w' j
      → Enqueues (ok tt)
      → (process S cfg user_id job_id w
          ≡ (ok (job_to_dto (load w''.db (queued (S.now w'.cloud) j)) none), w''))
        × (scoped_row user_id job_id w''.db ≡ some (queued (S.now w'.cloud) j))
  unfolding ◌>>=◌ select find_scoped pure
  process_queues h q =
      let row = queued_row (ok tt) h q in (start_enqueues h ∙ rw (q, row) refl, row)

  -- On a live job of the user whose audio is uploaded and that is neither READY nor in flight,
  -- where the queue throws, `process` throws the same error and leaves the job QUEUED, so that the
  -- next `process` returns it as in flight and neither writes nor enqueues anything.
  pub process_stuck :
      (e : Error)
      → IsStartable S user_id job_id w w' j
      → Enqueues (err e)
      → (process S cfg user_id job_id w ≡ (err e, w''))
        × (process S cfg user_id job_id w''
            ≡ (ok (job_to_dto (load w''.db (queued (S.now w'.cloud) j)) none), w''))
  unfolding ◌>>=◌
  process_stuck e h q =
      let row = queued_row (err e) h q in
      (start_enqueues h ∙ rw q refl, process-in_flight S cfg user_id job_id w'' _ row refl)
