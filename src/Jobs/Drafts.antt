-- ===== src/Jobs/Drafts.antt =====
-- server/src/jobs/jobs.service.ts: what a create writes.
use field_note.Common.{
  All, All-map_of, ◌≢◌, codes, ℕ, ◌≡◌, refl, ◌⊎◌, inl, inr, Bool-cases, Option, none, some, [], ◌∷◌,
  ◌++◌, Text, is_empty,
}
use field_note.Result.{◌>>=◌}
use field_note.Database.{Db, Job, JobStatus}
use field_note.World.{World, Services, Config, select, run}
use field_note.Repository.{
  has_id, load, load_some, draft, create_draft, is_taken, find_by_idempotency_key,
}
use field_note.Media.{audio_key}
use field_note.Repository.Consistent.{has_id_other}
use field_note.Repository.Inserts.{untaken}
use field_note.Repository.Pages.{any-All}
use field_note.Jobs.{create_new, replay_or_create, replay_or_new, create}
use field_note.Jobs.Create.{respond-Keeps}

-- A job as it is created: nothing of it is there yet but the place of its audio.
pub record IsDraft (user_id label : Text) (k : Option Text) (j : Job) : Type 0 where
  pub owner : j.user_id ≡ user_id
  pub labelled : j.label ≡ label
  pub is_created : j.status ≡ JobStatus.created
  pub place :
      j.audio_key ≡ some (codes "audio/" ++ (user_id ++ (codes "/" ++ (j.id ++ codes ".m4a"))))
  pub key : j.idempotency_key ≡ k
  pub untranscribed : j.transcript ≡ none
  pub unrendered : j.pdf_key ≡ none
  pub no_error : j.error_message ≡ none
  pub live : j.deleted_at ≡ none
  pub unchanged : j.updated_at ≡ j.created_at

-- The tables with one new row, whose id no row had.
pub record Appends (user_id label : Text) (k : Option Text) (db db' : Db) : Type 0 where
  pub row : Job
  pub is_draft : IsDraft user_id label k row
  pub fresh : All (λ (j : Job). j.id ≢ row.id) db.jobs
  pub appended : db' ≡ record db { jobs = db.jobs ++ row ∷ [] }

draft-IsDraft :
    (id user_id label : Text) (k : Option Text) (now : ℕ)
    → IsDraft user_id label k (draft id user_id label (audio_key user_id id) k now)
unfolding draft audio_key
draft-IsDraft id user_id label k now = record {
  owner = refl;
  labelled = refl;
  is_created = refl;
  place = refl;
  key = refl;
  untranscribed = refl;
  unrendered = refl;
  no_error = refl;
  live = refl;
  unchanged = refl;
}

module _ {C : Type 0} (S : Services C) (cfg : Config) (user_id label : Text) where
  new_writes :
      (k : Option Text) (w : World C)
      → ((create_new S cfg user_id label k w).1.db ≡ w.db)
        ⊎ Appends user_id label k w.db (create_new S cfg user_id label k w).1.db
  unfolding create_new create_draft run
  new_writes k w =
      let id = (S.random_uuid w.cloud).0 in
      let now = S.now (S.random_uuid w.cloud).1 in
      let j = draft id user_id label (audio_key user_id id) k now in
      let db' : Db = record w.db { jobs = w.db.jobs ++ j ∷ [] } in
      elim (Bool-cases (is_taken id user_id k w.db)) [
        | inl clash ↦ inl (rw clash refl)
        | inr free ↦ inr (record {
          row = j;
          is_draft = draft-IsDraft id user_id label k now;
          fresh =
              All-map_of _ _ w.db.jobs (λ i e. has_id_other i j e)
                (any-All (has_id id) w.db.jobs (untaken id user_id k w.db free));
          appended = rw free (
              (respond-Keeps S cfg user_id (λ db. db ≡ db') (load db' j) id).at
                (record { db = db'; cloud = (S.random_uuid w.cloud).1 }) refl);
        })
      ]

  replay_writes :
      (k : Text) (w : World C) (o : Option Job)
      → ((replay_or_create S cfg user_id label k (load_some w.db o) w).1.db ≡ w.db)
        ⊎ Appends user_id label
            (some k)
            w.db
            (replay_or_create S cfg user_id label k (load_some w.db o) w).1.db
  unfolding replay_or_create
  replay_writes k w none = new_writes (some k) w
  replay_writes k w (some j) =
      inl ((respond-Keeps S cfg user_id (λ db. db ≡ w.db) (load w.db j) (load w.db j).id).at w refl)

  -- Whatever the outcome of a create, a throw included: either nothing is written, or one row is
  -- appended, under an id that no row had: CREATED, of the user, with the request's label and
  -- idempotency key and the place of its audio, and without a transcript, a document or an error.
  pub create_writes :
      (k : Option Text) (w : World C)
      → ((create S cfg user_id label k w).1.db ≡ w.db)
        ⊎ Appends user_id label k w.db (create S cfg user_id label k w).1.db
  unfolding create replay_or_new find_by_idempotency_key ◌>>=◌ select
  create_writes none w = new_writes none w
  create_writes (some k) w = elim (Bool-cases (is_empty k)) [
    | inl empty ↦ rw empty (new_writes (some k) w)
    | inr named ↦ rw named (replay_writes k w _)
  ]
