-- ===== src/History/Runs.antt =====
-- The worker and the requests make histories.
use field_note.Common.{Bool, Option, Text}
use field_note.Result.{Error, pure, ◌>>=◌}
use field_note.Database.{Db}
use field_note.World.{Action, World, ProcessJobData, Services, Config}
use field_note.World.Keeps.{Keeps, Keeps-pure, Keeps-bind, Keeps-if, Keeps-throw}
use field_note.Tokens.{AuthConfig}
use field_note.Pipeline
use field_note.Pipeline.Keeps.{WritesKeep, process-Keeps}
use field_note.Processor.{BullJob, handle_failure, handle_failure-Keeps}
use field_note.Jobs.Requests
use field_note.Jobs.Requests.{
  RequestWrites, CreateKeeps, list-Keeps, create-Keeps, get_pdf_url-Keeps, find_one-Keeps,
  update-Keeps, remove-Keeps,
}
use field_note.Http.Guard.{GuardServices, authenticate-Keeps}
use field_note.Http.Jobs.{JobsRequest, JobsAnswer, with_uuid, dispatch, handle_request}
use field_note.History.{Step, History}

History-WritesKeep : (db : Db) (id : Text) → WritesKeep (History db) id
History-WritesKeep db id = record {
  stages = record {
    status = λ s now db' own h. History.then h (Step.enter id s now own);
    transcript = λ t now db' h. History.then h (Step.transcript id t now);
    report = λ ss db' h. History.then h (Step.report id ss);
    pdf = λ key now db' h. History.then h (Step.publish id key now);
    event = λ s st m db' h. History.then h (Step.event id s st m);
  };
  failure = λ m now db' h. History.then h (Step.fail id m now);
}

History-RequestWrites : (db : Db) (user_id id : Text) → RequestWrites (History db) user_id id
History-RequestWrites db user_id id = record {
  label = λ label now db' h. History.then h (Step.label user_id id label now);
  report = λ label ss now db' h. History.then h (Step.edit user_id id label ss now);
  start = λ now db' h. History.then h (Step.queue id now);
  delete = λ now db' h. History.then h (Step.delete user_id id now);
}

History-CreateKeeps : (db : Db) (user_id : Text) → CreateKeeps (History db) user_id
History-CreateKeeps db user_id id label key k now db' h =
    History.then h (Step.create id user_id label key k now)

module _ {C : Type 0} (S : Services C) (cfg : Config) (is_uuid : Text → Bool) where
  with_uuid-Keeps :
      {P : Db → Type 0} (id : Text) (m : Action C JobsAnswer)
      → Keeps P m
      → Keeps P (with_uuid is_uuid id m)
  with_uuid-Keeps id m k = Keeps-if _ _ _ k (Keeps-throw _)

  -- A handler's answer is wrapped.
  answered :
      {A : Type 0} {P : Db → Type 0} (m : Action C A) (f : A → JobsAnswer)
      → Keeps P m
      → Keeps P (m >>= λ a. pure (f a))
  answered m f k = Keeps-bind _ _ k (λ a. Keeps-pure (f a))

  module _ {P : Db → Type 0} (user_id : Text) (k : (id : Text) → RequestWrites P user_id id)
      (created : CreateKeeps P user_id) where
    dispatch-Keeps : (request : JobsRequest) → Keeps P (dispatch S cfg is_uuid user_id request)
    unfolding dispatch
    dispatch-Keeps (JobsRequest.get_jobs cursor limit) =
        answered _ JobsAnswer.page (list-Keeps S cfg user_id cursor limit)
    dispatch-Keeps (JobsRequest.post_job label key) =
        answered _ JobsAnswer.created (create-Keeps S cfg user_id label created _)
    dispatch-Keeps (JobsRequest.get_job id) =
        with_uuid-Keeps id _ (answered _ JobsAnswer.job (find_one-Keeps S cfg user_id id (k id)))
    dispatch-Keeps (JobsRequest.patch_job id dto) =
        with_uuid-Keeps id _ (answered _ JobsAnswer.job (update-Keeps S cfg user_id id (k id) dto))
    dispatch-Keeps (JobsRequest.post_process id) =
        with_uuid-Keeps id _
          (answered _ JobsAnswer.job (Requests.process-Keeps S cfg user_id id (k id)))
    dispatch-Keeps (JobsRequest.get_pdf id) =
        with_uuid-Keeps id _ (answered _ JobsAnswer.pdf_url (get_pdf_url-Keeps S cfg user_id id))
    dispatch-Keeps (JobsRequest.delete_job id) =
        with_uuid-Keeps id _
          (answered _ (λ u. JobsAnswer.no_content) (remove-Keeps S cfg user_id id (k id)))

module _ {C : Type 0} (S : Services C) (cfg : Config) (is_uuid : Text → Bool) (G : GuardServices C)
    (auth : AuthConfig) where
  request-history :
      (header : Option Text) (request : JobsRequest) (w : World C)
      → History w.db (handle_request S cfg is_uuid G auth header request w).1.db
  unfolding handle_request
  request-history header request w =
      (Keeps-bind _ _ (authenticate-Keeps G auth header) (λ u.
          dispatch-Keeps S cfg is_uuid u.user_id (History-RequestWrites w.db u.user_id)
            (History-CreateKeeps w.db u.user_id) request)).at
        w History.start

  -- Whatever the outside answers and however they end, a request on the jobs, a run of the worker and
  -- the listener of its failures change the tables of jobs, reports and events by a sequence of the
  -- steps of a history, and by nothing else.
  pub service_histories :
      (header : Option Text) (request : JobsRequest) (d : ProcessJobData) (job : Option BullJob)
      (e : Error) (w : World C)
      → History w.db (handle_request S cfg is_uuid G auth header request w).1.db
        × History w.db (Pipeline.process S cfg d w).1.db
        × History w.db (handle_failure S cfg job e w).1.db
  service_histories header request d job e w = (
    request-history header request w,
    (process-Keeps S cfg d (History-WritesKeep w.db d.job_id)).at w History.start,
    (handle_failure-Keeps S cfg job e (History-WritesKeep w.db)).at w History.start,
  )
