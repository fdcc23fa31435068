-- ===== src/Jobs/Isolation.antt =====
-- What a request on one job leaves alone.
use field_note.Common.{Text, Option, ◌≡◌, ◌≢◌, refl}
use field_note.Database.{JobWithReport}
use field_note.Repository.{find_by_id}
use field_note.Repository.Others.{IsSound}
use field_note.Repository.Isolation.{
  Unchanged, set_status-Unchanged, replace_report_scoped-Unchanged, update_label-Unchanged,
  soft_delete-Unchanged,
}
use field_note.World.{World, Services, Config}
use field_note.Jobs.Dto.{UpdateJobDto}
use field_note.Jobs.Requests.{RequestWrites, update-Keeps, process-Keeps, remove-Keeps}
use field_note.Jobs.{update, process, remove}

pub Unchanged-RequestWrites :
    (user_id job_id other : Text) (r : Option JobWithReport)
    → other ≢ job_id
    → RequestWrites (Unchanged other r) user_id job_id
Unchanged-RequestWrites user_id job_id other r ne = record {
  label = λ label now db. update_label-Unchanged job_id other ne r user_id label now db;
  report =
      λ label ss now db. replace_report_scoped-Unchanged job_id other ne r user_id label ss now db;
  start = λ now db. set_status-Unchanged job_id other ne r db _ _ now;
  delete = λ now db. soft_delete-Unchanged job_id other ne r user_id now db;
}

-- Where the report tables are sound, an edit, a start or a delete of one job, however it ends,
-- leaves what every other job's load reads, its row and its whole report, as it was.
pub requests_others :
    {C : Type 0} (S : Services C) (cfg : Config) (user_id job_id other : Text) (dto : UpdateJobDto)
    (w : World C)
    → other ≢ job_id
    → IsSound w.db
    → (find_by_id other (update S cfg user_id job_id dto w).1.db ≡ find_by_id other w.db)
      × (find_by_id other (process S cfg user_id job_id w).1.db ≡ find_by_id other w.db)
      × (find_by_id other (remove S user_id job_id w).1.db ≡ find_by_id other w.db)
requests_others S cfg user_id job_id other dto w ne sound =
    let k = Unchanged-RequestWrites user_id job_id other (find_by_id other w.db) ne in
    (
      ((update-Keeps S cfg user_id job_id k dto).at w (sound, refl)).1,
      ((process-Keeps S cfg user_id job_id k).at w (sound, refl)).1,
      ((remove-Keeps S cfg user_id job_id k).at w (sound, refl)).1,
    )
