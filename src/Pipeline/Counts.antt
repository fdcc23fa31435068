-- ===== src/Pipeline/Counts.antt =====
-- server/src/processing/pipeline/pipeline.service.ts: the recorded events of a job's stage, counted.
use field_note.Common.{
  ℕ, ◌+◌, ◌≡◌, ◌≢◌, refl, Bool, ◌&&◌, Option, List, [], ◌∷◌, ◌++◌, Text, text_eq, ◌==◌, count,
  count-append, if◌then◌else◌, arith,
}
use field_note.Database.{Db, Stage, EventStatus, ProcessingEvent}
use field_note.Repository.{add_event}

-- Numbers for the stages and the statuses, to compare them by.
abbrev stage_number : Stage → ℕ
stage_number Stage.transcribe = 0
stage_number Stage.compile = 1
stage_number Stage.render = 2
stage_number Stage.pipeline = 3

abbrev status_number : EventStatus → ℕ
status_number EventStatus.started = 0
status_number EventStatus.completed = 1
status_number EventStatus.failed = 2

-- The event is one of the job's stage.
unfoldable pub is_of : Text → Stage → ProcessingEvent → Bool
is_of id s e = text_eq e.job_id id && stage_number e.stage == stage_number s

unfoldable pub is_event : Text → Stage → EventStatus → ProcessingEvent → Bool
unfolding is_of
is_event id s st e = is_of id s e && status_number e.status == status_number st

unfoldable pub events_of : Text → Stage → EventStatus → List ProcessingEvent → ℕ
events_of id s st es = count (is_event id s st) es

events_of-add :
    (id : Text) (s : Stage) (st : EventStatus) (es : List ProcessingEvent) (e : ProcessingEvent)
    → events_of id s st (es ++ e ∷ [])
      ≡ events_of id s st es + (if is_event id s st e then 1 else 0)
unfolding events_of count
events_of-add id s st es e = rw (count-append (is_event id s st) es (e ∷ [])) refl

-- Every start of the stage has its end, but for `n` of them.
abbrev pub AreOpen : ℕ → Text → Stage → List ProcessingEvent → Type 0
AreOpen n id s es =
    events_of id s EventStatus.started es
    ≡ events_of id s EventStatus.completed es + events_of id s EventStatus.failed es + n

abbrev pub ArePaired : Text → Stage → List ProcessingEvent → Type 0
ArePaired = AreOpen 0

-- How many starts an event of a stage opens.
abbrev pub one_of : Text → Stage → Text → Stage → ℕ
one_of id s job_id stage =
    if text_eq job_id id && stage_number stage == stage_number s then 1 else 0

module _ (id : Text) (s : Stage) (job_id : Text) (stage : Stage) (m : Option Text) (db : Db) where
  counts :
      (st st' : EventStatus)
      → events_of id s st' (add_event job_id stage st m db).events
        ≡ events_of id s st' db.events
          + (if (text_eq job_id id && stage_number stage == stage_number s)
                && status_number st == status_number st'
              then 1
              else 0)
  unfolding add_event is_event is_of
  counts st st' = events_of-add id s st' db.events _

  pub started_opens :
      ArePaired id s db.events
      → AreOpen
          (one_of id s job_id stage)
          id
          s
          (add_event job_id stage EventStatus.started m db).events
  started_opens h =
      let c = counts EventStatus.started in
      rw (c EventStatus.started, c EventStatus.completed, c EventStatus.failed) (ground arith)

  pub completed_closes :
      AreOpen (one_of id s job_id stage) id s db.events
      → ArePaired id s (add_event job_id stage EventStatus.completed m db).events
  completed_closes h =
      let c = counts EventStatus.completed in
      rw (c EventStatus.started, c EventStatus.completed, c EventStatus.failed) (ground arith)

  pub failed_closes :
      AreOpen (one_of id s job_id stage) id s db.events
      → ArePaired id s (add_event job_id stage EventStatus.failed m db).events
  failed_closes h =
      let c = counts EventStatus.failed in
      rw (c EventStatus.started, c EventStatus.completed, c EventStatus.failed) (ground arith)

pub none_open :
    (id : Text) (s : Stage) (job_id : Text)
    → s ≢ Stage.pipeline
    → one_of id s job_id Stage.pipeline ≡ 0
none_open id Stage.pipeline job_id ne = absurd (ne refl)
none_open id Stage.transcribe job_id ne = ground arith
none_open id Stage.compile job_id ne = ground arith
none_open id Stage.render job_id ne = ground arith
