-- ===== src/Http/Isolation.antt =====
-- What a request on the jobs leaves alone, whoever it comes from.
use field_note.Common.{
  ◌≡◌, ◌≢◌, refl, ap, ◌∙◌, sym, Bool, inl, inr, Bool-cases, Option, none, some, Text, text_eq,
  text_eq_iff, All-map_of, arith,
}
use field_note.Result.{Result, ok, err, pure, throw, continue, ◌>>=◌}
use field_note.Database.{Db, Job, JobWithReport}
use field_note.World.{World, Action, Services, Config}
use field_note.World.Keeps.{Keeps, Keeps-pure, Keeps-bind}
use field_note.Repository.{raw_by_id, find_by_id, load}
use field_note.Repository.Pages.{HasPrimaryKey, only_row}
use field_note.Repository.Others.{IsSound}
use field_note.Repository.Isolation.{Unchanged, create_draft-Unchanged}
use field_note.Repository.Scoped.{IsHidden}
use field_note.Tokens.{AuthConfig}
use field_note.Jobs.Dto.{UpdateJobDto}
use field_note.Jobs.Owned.{requests_hidden}
use field_note.Jobs.Isolation.{Unchanged-RequestWrites}
use field_note.Jobs.{job_not_found, create}
use field_note.Jobs.Pages.{list}
use field_note.Http.Jobs.{trimmed_key, JobsRequest, JobsAnswer, with_uuid, dispatch, handle_request}
use field_note.Jobs.Requests.{
  list-Keeps, create-Keeps, get_pdf_url-Keeps, find_one-Keeps, update-Keeps, process-Keeps,
  remove-Keeps,
}
use field_note.Http.Guard.{GuardServices, AuthenticatedUser, authenticate, authenticate-Keeps}

-- A job of another user is hidden from the user.
others-IsHidden :
    (user_id other : Text) (db : Db) (j : Job)
    → HasPrimaryKey db
    → raw_by_id other db ≡ some j
    → user_id ≢ j.user_id
    → IsHidden user_id other db
unfolding raw_by_id
others-IsHidden user_id other db j k found ne =
    All-map_of _ _ db.jobs
      (λ i only same own gone. ne (sym own ∙ ap (λ (x : Job). x.user_id) (only same)))
      (only_row other db.jobs j k.keys found)

module _ {C A : Type 0} (is_uuid : Text → Bool) (P : Db → Type 0) (id other : Text) (m : Action C A)
    (f : A → JobsAnswer) (w : World C) where
  -- A route with an id in its path.
  on_id :
      P w.db
      → (other ≢ id → Keeps P m)
      → (id ≡ other → m w ≡ (err job_not_found, w))
      → P (with_uuid is_uuid id (m >>= λ a. pure (f a)) w).1.db
  unfolding ◌>>=◌ throw
  on_id h apart same = elim (Bool-cases (is_uuid id)) [
    | inr bad ↦ rw bad h
    | inl good ↦ elim (Bool-cases (text_eq id other)) [
      | inl e ↦ rw (good, same ((text_eq_iff id other).0 e)) h
      | inr e ↦ rw good (
          (Keeps-bind m (λ a. pure (f a))
              (apart (λ p. ground (arith, e, text_eq_iff id other, sym p)))
              (λ a. Keeps-pure (f a))).at
            w h)
    ]
  ]

module _ {C : Type 0} (S : Services C) (cfg : Config) (is_uuid : Text → Bool) (user_id other : Text)
    (r : JobWithReport) where
  no_edit : UpdateJobDto
  no_edit = record { label = none; sections = none }

  dispatch_others :
      (request : JobsRequest) (w : World C)
      → Unchanged other (some r) w.db
      → IsHidden user_id other w.db
      → Unchanged other (some r) (dispatch S cfg is_uuid user_id request w).1.db
  unfolding dispatch
  dispatch_others (JobsRequest.get_jobs cursor limit) w h hidden =
      (Keeps-bind {P = Unchanged other (some r)} (list S user_id cursor limit) _
          (list-Keeps S cfg user_id cursor limit) (λ p. Keeps-pure (JobsAnswer.page p))).at
        w h
  dispatch_others (JobsRequest.post_job label key) w h hidden =
      (Keeps-bind {P = Unchanged other (some r)} (create S cfg user_id label (trimmed_key key)) _
          (create-Keeps S cfg user_id label
            (λ i l key k now db. create_draft-Unchanged other r db i user_id l key k now) _)
          (λ p. Keeps-pure (JobsAnswer.created p))).at
        w h
  dispatch_others (JobsRequest.get_job id) w h hidden =
      on_id is_uuid (Unchanged other (some r)) id other _ JobsAnswer.job w h
        (λ ne.
          find_one-Keeps S cfg user_id id (Unchanged-RequestWrites user_id id other (some r) ne))
        λ e. rw e (requests_hidden S cfg user_id other w no_edit hidden).0
  dispatch_others (JobsRequest.patch_job id dto) w h hidden =
      on_id is_uuid (Unchanged other (some r)) id other _ JobsAnswer.job w h
        (λ ne.
          update-Keeps S cfg user_id id (Unchanged-RequestWrites user_id id other (some r) ne) dto)
        (λ e. rw e (requests_hidden S cfg user_id other w dto hidden).1)
  dispatch_others (JobsRequest.post_process id) w h hidden =
      on_id is_uuid (Unchanged other (some r)) id other _ JobsAnswer.job w h
        (λ ne.
          process-Keeps S cfg user_id id (Unchanged-RequestWrites user_id id other (some r) ne))
        λ e. rw e (requests_hidden S cfg user_id other w no_edit hidden).2
  dispatch_others (JobsRequest.get_pdf id) w h hidden =
      on_id is_uuid (Unchanged other (some r)) id other _ JobsAnswer.pdf_url w h
        (λ ne. get_pdf_url-Keeps S cfg user_id id)
        λ e. rw e (requests_hidden S cfg user_id other w no_edit hidden).4
  dispatch_others (JobsRequest.delete_job id) w h hidden =
      on_id is_uuid (Unchanged other (some r)) id other _ (λ u. JobsAnswer.no_content) w h
        (λ ne. remove-Keeps S cfg user_id id (Unchanged-RequestWrites user_id id other (some r) ne))
        (λ e. rw e (requests_hidden S cfg user_id other w no_edit hidden).3)

module _ {C : Type 0} (S : Services C) (cfg : Config) (is_uuid : Text → Bool) (G : GuardServices C)
    (auth : AuthConfig) (header : Option Text) (request : JobsRequest) (w : World C) where
  handled :
      (P : Db → Type 0) (a : Result AuthenticatedUser) (w' : World C)
      → P w'.db
      → ((u : AuthenticatedUser) → a ≡ ok u → P (dispatch S cfg is_uuid u.user_id request w').1.db)
      → P (continue a (λ u. dispatch S cfg is_uuid u.user_id request) w').1.db
  handled P (ok u) w' h f = f u refl
  handled P (err e) w' h f = h

  -- Ids are unique and the report tables sound. A request on the jobs, whatever it asks for and
  -- however it ends, leaves a job that is not the accepted token's user's, its row and its whole
  -- report, as it was; also where the token is not accepted.
  pub handle_request_others :
      (other : Text) (j : Job)
      → HasPrimaryKey w.db
      → IsSound w.db
      → raw_by_id other w.db ≡ some j
      → ((u : AuthenticatedUser) → (authenticate G auth header w).0 ≡ ok u → u.user_id ≢ j.user_id)
      → find_by_id other (handle_request S cfg is_uuid G auth header request w).1.db
        ≡ find_by_id other w.db
  unfolding handle_request ◌>>=◌
  handle_request_others other j k sound found foreign =
      let a = authenticate G auth header w in
      let same : find_by_id other w.db ≡ some (load w.db j) = unfold find_by_id in rw found refl in
      let db : a.1.db ≡ w.db = (authenticate-Keeps G auth {P = λ x. x ≡ w.db} header).at w refl in
      let r = handled (Unchanged other (some (load w.db j))) a.0 a.1 (rw db (sound, same)) λ u e.
        dispatch_others S cfg is_uuid u.user_id other (load w.db j) request a.1
          (rw db (sound, same))
          (rw db (others-IsHidden u.user_id other w.db j k found (foreign u e))) in
      r.1 ∙ sym same
