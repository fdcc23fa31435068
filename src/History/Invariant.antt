-- ===== src/History/Invariant.antt =====
-- What holds of the tables after every history.
use field_note.Common.{◌≡◌, ◌≢◌, true, arith}
use field_note.Database.{Db, JobStatus}
use field_note.Pipeline.{is_stage}
use field_note.Repository.Consistent.{
  IsConsistent, set_status-IsConsistent, save_transcript-IsConsistent, set_pdf_ready-IsConsistent,
  replace_report-IsConsistent, add_event-IsConsistent, update_label-IsConsistent,
  soft_delete-IsConsistent, edit-IsConsistent, create_draft-IsConsistent,
}
use field_note.History.{Step, History}

stage_ne_ready : (s : JobStatus) → is_stage s ≡ true → s ≢ JobStatus.ready
stage_ne_ready s h e = ground (arith, h, e)

step-IsConsistent : (db db' : Db) → IsConsistent db → Step db db' → IsConsistent db'
step-IsConsistent db _ h (Step.create id user_id label key k now) =
    create_draft-IsConsistent id user_id label key k now db h
step-IsConsistent db _ h (Step.label user_id id label now) =
    update_label-IsConsistent id db h user_id label now
step-IsConsistent db _ h (Step.edit user_id id label ss now) =
    edit-IsConsistent id db h user_id label ss now
step-IsConsistent db _ h (Step.delete user_id id now) = soft_delete-IsConsistent id db h user_id now
step-IsConsistent db _ h (Step.queue id now) =
    set_status-IsConsistent id db h _ _ now (λ e. ground (arith, e))
step-IsConsistent db _ h (Step.enter id s now own) =
    set_status-IsConsistent id db h s _ now (stage_ne_ready s own)
step-IsConsistent db _ h (Step.transcript id t now) = save_transcript-IsConsistent id db h t now
step-IsConsistent db _ h (Step.report id ss) = replace_report-IsConsistent id db h ss
step-IsConsistent db _ h (Step.publish id key now) = set_pdf_ready-IsConsistent id db h key now
step-IsConsistent db _ h (Step.fail id m now) =
    set_status-IsConsistent id db h _ _ now (λ e. ground (arith, e))
step-IsConsistent db _ h (Step.event id s st m) = add_event-IsConsistent id db h s st m

-- From consistent tables, such as the empty ones, every history, that is every interleaving of the
-- writes of requests, of runs and of stages that timed out, ends in consistent tables: no two jobs have
-- one id, a READY job has the key of a document, and no section id belongs to two jobs.
pub history-IsConsistent : (db db' : Db) → History db db' → IsConsistent db → IsConsistent db'
history-IsConsistent db _ History.start h = h
history-IsConsistent db _ (History.then before step) h =
    step-IsConsistent _ _ (history-IsConsistent db _ before h) step
