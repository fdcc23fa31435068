-- ===== src/Jobs/Writes.antt =====
-- server/src/jobs/jobs.service.ts: what a start writes.
use field_note.Common.{
  ℕ, ◌≡◌, refl, ap, ◌∙◌, ◌⊎◌, inl, inr, Bool, true, false, Bool-cases, Option-cases, none, some,
  Text, or_else,
}
use field_note.Result.{Result, ok, err, pure, throw, ◌>>=◌, ◌>>◌}
use field_note.Database.{Db, Job, JobStatus, JobWithReport}
use field_note.World.{World, Action, Services, Config, select}
use field_note.World.Keeps.{Keeps-bind, Keeps-pure, Keeps-select}
use field_note.World.Returns.{at_now_then}
use field_note.Repository.{find_scoped, load, set_status}
use field_note.Repository.Scoped.{scoped_row, set_status-scoped}
use field_note.Media.{audio_key, object_exists}
use field_note.Queue.{enqueue_processing, enqueue_processing-Keeps}
use field_note.Pipeline.{is_ready}
use field_note.Jobs.Dto.{JobDto, job_to_dto}
use field_note.Jobs.{in_flight, process, process_owned, start_checked, start_if, start}
use field_note.Jobs.Owned.{owned_found, owned_missing}
use field_note.Jobs.Process.{queued, object_exists-Keeps}
use field_note.Jobs.Keeps.{maybe_pdf_url-Keeps}

-- The user's live job was neither READY nor in flight before, its audio is there, and it is QUEUED now.
pub record HasQueued {C : Type 0} (S : Services C) (user_id job_id : Text) (w : World C) (db : Db)
    : Type 0 where
  pub row : Job
  pub now : ℕ
  pub found : scoped_row user_id job_id w.db ≡ some row
  pub idle : in_flight row.status ≡ false
  pub unready : is_ready row.status ≡ false
  pub uploaded : (object_exists S (or_else row.audio_key (audio_key user_id job_id)) w).0 ≡ ok true
  pub is_queued : scoped_row user_id job_id db ≡ some (queued now row)

module _ {C : Type 0} (S : Services C) (cfg : Config) (user_id job_id : Text) where
  -- What follows the update of the status.
  abbrev after_status : JobWithReport → Action C JobDto
  after_status job =
      enqueue_processing S cfg (record { job_id = job_id; user_id = user_id })
      >> (select (find_scoped user_id job_id) >>= λ refreshed.
          pure (job_to_dto (or_else refreshed job) none))

  start_queues :
      (job : JobWithReport) (w : World C) (j : Job)
      → scoped_row user_id job_id w.db ≡ some j
      → scoped_row user_id job_id (start S cfg user_id job_id job w).1.db
        ≡ some (queued (S.now w.cloud) j)
  unfolding start
  start_queues job w j h =
      let set =
        set_status-scoped user_id job_id w.db j h JobStatus.queued (some none) (S.now w.cloud) in
      let w' : World C = record w {
        db = (set_status job_id JobStatus.queued (some none) (S.now w.cloud) w.db).1;
      } in
      let rest =
        Keeps-bind {P = λ db. db ≡ w'.db} _ _
          (enqueue_processing-Keeps S cfg (λ db. db ≡ w'.db)
            (record { job_id = job_id; user_id = user_id }))
          (λ x.
            Keeps-bind _ _ (Keeps-select (find_scoped user_id job_id))
              (λ refreshed. Keeps-pure (job_to_dto (or_else refreshed job) none))) in
      let e : (start S cfg user_id job_id job w).1.db ≡ w'.db =
        ap (λ z. z.1.db)
          (at_now_then S (set_status job_id JobStatus.queued (some none)) (after_status job) w tt
            set.0)
        ∙ rest.at w' refl in
      rw e set.1

  checked_writes :
      (job : JobWithReport) (w w' : World C) (j : Job) (o : Result Bool)
      → object_exists S (or_else job.audio_key (audio_key user_id job_id)) w ≡ (o, w')
      → scoped_row user_id job_id w.db ≡ some j
      → w'.db ≡ w.db
      → ((start_checked S cfg user_id job_id job w).1.db ≡ w.db)
        ⊎ ((o ≡ ok true)
            × (scoped_row user_id job_id (start_checked S cfg user_id job_id job w).1.db
                ≡ some (queued (S.now w'.cloud) j)))
  unfolding start_checked start_if ◌>>=◌ throw
  checked_writes job w w' j (err e) asked h same = inl (rw asked same)
  checked_writes job w w' j (ok false) asked h same = inl (rw asked same)
  checked_writes job w w' j (ok true) asked h same =
      inr (refl, rw asked (start_queues job w' j (rw same h)))

  owned_writes :
      (w : World C) (j : Job)
      → scoped_row user_id job_id w.db ≡ some j
      → ((process_owned S cfg user_id job_id (load w.db j) w).1.db ≡ w.db)
        ⊎ HasQueued S user_id job_id w (process_owned S cfg user_id job_id (load w.db j) w).1.db
  unfolding process_owned load pure
  owned_writes w j h = elim (Bool-cases (is_ready j.status)) [
    | inl ready ↦ inl (
        rw ready (
          (Keeps-bind {P = λ db. db ≡ w.db} _ _ (maybe_pdf_url-Keeps S cfg (load w.db j))
              (λ url. Keeps-pure (job_to_dto (load w.db j) url))).at
            w refl))
    | inr unready ↦ elim (Bool-cases (in_flight j.status)) [
      | inl flying ↦ inl (rw (unready, flying) refl)
      | inr idle ↦
          let asked = object_exists S (or_else j.audio_key (audio_key user_id job_id)) w in
          elim (checked_writes (load w.db j) w asked.1 j asked.0 refl h
            ((object_exists-Keeps S _ (λ db. db ≡ w.db)).at w refl)) [
              | inl same ↦ inl (rw (unready, idle) same)
              | inr (uploaded, row) ↦ inr (
                  rw (unready, idle)
                    (record {
                      row = j;
                      now = S.now asked.1.cloud;
                      found = h;
                      idle = idle;
                      unready = unready;
                      uploaded = uploaded;
                      is_queued = row;
                    }))
            ]
    ]
  ]

  -- Whatever the outcome of a process request, a throw included: either nothing is written, or the
  -- user's live job was neither READY nor in flight, its audio is uploaded, and it is QUEUED now,
  -- without an error message and else as it was.
  pub process_writes :
      (w : World C)
      → ((process S cfg user_id job_id w).1.db ≡ w.db)
        ⊎ HasQueued S user_id job_id w (process S cfg user_id job_id w).1.db
  unfolding process
  process_writes w = elim (Option-cases (scoped_row user_id job_id w.db)) [
    | inl hidden ↦ inl (
        ap (λ z. z.1.db)
          (owned_missing user_id job_id (process_owned S cfg user_id job_id) w hidden))
    | inr (j, h) ↦
        let e = owned_found user_id job_id (process_owned S cfg user_id job_id) w j h in
        rw e (owned_writes w j h)
  ]
