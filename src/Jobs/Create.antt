-- ===== src/Jobs/Create.antt =====
-- Creating a job with an idempotency key.
use field_note.Common.{
  ℕ, ◌≡◌, refl, ap, ◌∙◌, sym, Bool, true, false, ◌||◌, Option, none, some, List, [], ◌∷◌, ◌++◌,
  Text, is_empty, find?, any, text_eq_refl, arith, codes,
}
use field_note.Result.{ErrorKind, Error, error, ok, err, ◌>>=◌}
use field_note.Database.{Db, Job, JobWithReport}
use field_note.World.{World, select, call, at_now, Services, Config}
use field_note.Repository.{
  same_key, live_with_key, is_taken, has_id, draft, create_draft, find_by_idempotency_key, load,
  load_some,
}
use field_note.World.Keeps.{Keeps, Keeps-bind, Keeps-call, Keeps-pure}
use field_note.World.Returns.{bind_ok, pure_ok}
use field_note.Media.{audio_key, presign_audio_upload}
use field_note.Jobs.Dto.{CreateJobResponseDto, job_to_dto}
use field_note.Jobs.{respond, create_new, replay_or_new, replay_or_create, create}

-- The user's live job with the key.
abbrev pub keyed_row : Text → Text → Db → Option Job
keyed_row user_id k db = find? (live_with_key user_id k) db.jobs

-- The error of a unique constraint.
abbrev pub taken : Error
taken = error ErrorKind.unique_violation (codes "Unique constraint failed.")

any-in : (p q : Job → Bool) (jobs : List Job) → any p jobs ≡ true → any q jobs || any p jobs ≡ true
any-in p q jobs h = ground arith

module _ {C : Type 0} (S : Services C) (cfg : Config) (user_id label k : Text) (w : World C)
    (named : is_empty k ≡ false) where
  create_lookup :
      create S cfg user_id label (some k) w
      ≡ replay_or_create S cfg user_id label k (load_some w.db (keyed_row user_id k w.db)) w
  unfolding create replay_or_new find_by_idempotency_key ◌>>=◌ select
  create_lookup = rw named refl

  -- A create with a key that is not empty, that no live job of the user has and that a
  -- soft-deleted one has, fails on the unique constraint and writes nothing.
  pub create_deleted_key :
      keyed_row user_id k w.db ≡ none
      → any (same_key user_id k) w.db.jobs ≡ true
      → create S cfg user_id label (some k) w
        ≡ (err taken, record w { cloud = (S.random_uuid w.cloud).1 })
  unfolding replay_or_create create_new create_draft is_taken ◌>>=◌ call at_now
  create_deleted_key h u =
      create_lookup
      ∙ rw (h, any-in (same_key user_id k) (has_id (S.random_uuid w.cloud).0) w.db.jobs u) refl

found_last :
    (p : Job → Bool) (jobs : List Job) (j : Job)
    → find? p jobs ≡ none
    → p j ≡ true
    → find? p (jobs ++ j ∷ []) ≡ some j
unfolding find?
found_last p [] j h e = rw e refl
found_last p (i ∷ jobs) j h e = ground (arith, found_last p jobs j)

draft-LiveWithKey :
    (id user_id label audio k : Text) (now : ℕ)
    → live_with_key user_id k (draft id user_id label audio (some k) now) ≡ true
unfolding live_with_key same_key draft
draft-LiveWithKey id user_id label audio k now = rw (text_eq_refl user_id, text_eq_refl k) refl

module _ {C : Type 0} (S : Services C) (cfg : Config) (user_id : Text) where
  pub respond-Keeps :
      (P : Db → Type 0) (job : JobWithReport) (id : Text) → Keeps P (respond S cfg user_id job id)
  unfolding respond presign_audio_upload
  respond-Keeps P job id =
      Keeps-bind _ _ (Keeps-bind _ _ (Keeps-call _) (λ url. Keeps-pure _)) (λ upload. Keeps-pure _)

  replays :
      (db : Db) (j : Job) (label k : Text) (w : World C)
      → replay_or_create S cfg user_id label k (load_some db (some j)) w
        ≡ respond S cfg user_id (load db j) j.id w
  unfolding replay_or_create load
  replays db j label k w = refl

  respond_ok :
      (job : JobWithReport) (id : Text) (w : World C) (r : CreateJobResponseDto)
      → (respond S cfg user_id job id w).0 ≡ ok r
      → r.job.id ≡ job.id
  unfolding respond job_to_dto
  respond_ok job id w r h =
      let (upload, e, p) = bind_ok (presign_audio_upload S cfg user_id id) _ w r h in
      ap (λ (x : CreateJobResponseDto). x.job.id) (sym (pure_ok _ r _ (ap (λ z. z.0) (sym p) ∙ h)))

module _ {C : Type 0} (S : Services C) (cfg : Config) (user_id label k : Text) (w : World C)
    (named : is_empty k ≡ false) (free : keyed_row user_id k w.db ≡ none)
    (unused : is_taken (S.random_uuid w.cloud).0 user_id (some k) w.db ≡ false) where
  -- The row that a create makes.
  abbrev new_row : Job
  new_row =
      let id = (S.random_uuid w.cloud).0 in
      draft id user_id label (audio_key user_id id) (some k) (S.now (S.random_uuid w.cloud).1)

  abbrev created_world : World C
  created_world = record {
    db = record w.db { jobs = w.db.jobs ++ new_row ∷ [] };
    cloud = (S.random_uuid w.cloud).1;
  }

  create_makes :
      create S cfg user_id label (some k) w
      ≡ respond S cfg user_id
          (load created_world.db new_row)
          (S.random_uuid w.cloud).0
          created_world
  unfolding replay_or_create create_new create_draft ◌>>=◌ call at_now
  create_makes = create_lookup S cfg user_id label k w named ∙ rw (free, unused) refl

  new_keyed : keyed_row user_id k created_world.db ≡ some new_row
  new_keyed =
      found_last (live_with_key user_id k) w.db.jobs new_row free
        (draft-LiveWithKey _ user_id label _ k _)

  -- Where a create with a key that is not empty and that no job of the user has makes a job and
  -- returns, a repeated create with the same key, under whatever label, that returns answers with
  -- that job, and writes nothing.
  pub create_once :
      (label' : Text) (r r' : CreateJobResponseDto) (w' : World C)
      → create S cfg user_id label (some k) w ≡ (ok r, w')
      → (create S cfg user_id label' (some k) w').0 ≡ ok r'
      → (r'.job.id ≡ r.job.id)
        × ((create S cfg user_id label' (some k) w').1.db ≡ w'.db)
        × (w'.db.jobs ≡ w.db.jobs ++ new_row ∷ [])
  unfolding load
  create_once label' r r' w' made again =
      let p : respond S cfg user_id (load created_world.db new_row) (S.random_uuid w.cloud).0
            created_world
          ≡ (ok r, w') =
        sym create_makes ∙ made in
      let same : w'.db ≡ created_world.db =
        ap (λ z. z.1.db) (sym p)
        ∙ (respond-Keeps S cfg user_id (λ db. db ≡ created_world.db) _ _).at created_world refl in
      let q =
        create_lookup S cfg user_id label' k w' named
        ∙ ap
            (λ db.
              replay_or_create S cfg user_id label' k (load_some db (keyed_row user_id k db)) w')
            same
        ∙ ap (λ o. replay_or_create S cfg user_id label' k (load_some created_world.db o) w')
            new_keyed in
      let replay = replays S cfg user_id created_world.db new_row label' k w' in
      (
        respond_ok S cfg user_id (load created_world.db new_row) _ w' r'
              (ap (λ z. z.0) (sym (q ∙ replay)) ∙ again)
            ∙ sym (
                respond_ok S cfg user_id (load created_world.db new_row) _ created_world r
                  (ap (λ z. z.0) p)),
        ap (λ z. z.1.db) (q ∙ replay)
            ∙ (respond-Keeps S cfg user_id (λ db. db ≡ w'.db) _ _).at w' refl,
        ap (λ (db : Db). db.jobs) same,
      )
