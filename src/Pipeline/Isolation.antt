-- ===== src/Pipeline/Isolation.antt =====
-- What a run on one job leaves alone.
use field_note.Common.{Text, Option, ◌≡◌, ◌≢◌, refl}
use field_note.Database.{JobWithReport}
use field_note.Repository.{find_by_id}
use field_note.Repository.Others.{IsSound}
use field_note.Repository.Isolation.{
  Unchanged, set_status-Unchanged, save_transcript-Unchanged, set_pdf_ready-Unchanged,
  add_event-Unchanged, replace_report-Unchanged,
}
use field_note.World.{World, ProcessJobData, Services, Config}
use field_note.Pipeline.{process}
use field_note.Pipeline.Keeps.{StageWrites, WritesKeep, process-Keeps}

Unchanged-StageWrites :
    (id other : Text) (r : Option JobWithReport) → other ≢ id → StageWrites (Unchanged other r) id
Unchanged-StageWrites id other r ne = record {
  status = λ s now db own. set_status-Unchanged id other ne r db s _ now;
  transcript = λ t now db. save_transcript-Unchanged id other ne r db t now;
  report = λ ss db. replace_report-Unchanged id other ne r db ss;
  pdf = λ key now db. set_pdf_ready-Unchanged id other ne r db key now;
  event = λ s st m db. add_event-Unchanged id other ne r db s st m;
}

pub Unchanged-WritesKeep :
    (id other : Text) (r : Option JobWithReport) → other ≢ id → WritesKeep (Unchanged other r) id
Unchanged-WritesKeep id other r ne = record {
  stages = Unchanged-StageWrites id other r ne;
  failure = λ m now db. set_status-Unchanged id other ne r db _ _ now;
}

-- Where the report tables are sound, a run on one job, however it ends, keeps them sound, and
-- leaves what every other job's load reads, its row and its whole report, as it was.
pub process_others :
    {C : Type 0} (S : Services C) (cfg : Config) (d : ProcessJobData) (w : World C) (other : Text)
    → other ≢ d.job_id
    → IsSound w.db
    → IsSound (process S cfg d w).1.db
      × (find_by_id other (process S cfg d w).1.db ≡ find_by_id other w.db)
process_others S cfg d w other ne sound =
    let (sound', same) =
      (process-Keeps S cfg d (Unchanged-WritesKeep d.job_id other (find_by_id other w.db) ne)).at w
        (sound, refl) in
    (sound', same)
