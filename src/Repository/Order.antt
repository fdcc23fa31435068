-- ===== src/Repository/Order.antt =====
-- The order of what a load returns.
use field_note.Common.{List, map, All, IsSorted, sort_by-IsSorted, map-IsSorted, filter, [], ◌∷◌}
use field_note.Database.{Job, ReportSection, Finding, Db, LoadedSection}
use field_note.Repository.{of_job, load_section, load}

pub load-IsSorted :
    (db : Db) (j : Job)
    → IsSorted (λ (l : LoadedSection). l.section.sort_order) (load db j).sections
unfolding load load_section
load-IsSorted db j =
    map-IsSorted (load_section db) (λ (l : LoadedSection). l.section.sort_order) _
      (sort_by-IsSorted (λ (s : ReportSection). s.sort_order) (filter (of_job j.id) db.sections))

sections-IsSorted :
    (db : Db) (rows : List ReportSection)
    → All
        (λ (l : LoadedSection). IsSorted (λ (f : Finding). f.sort_order) l.findings)
        (map (load_section db) rows)
unfolding load_section
sections-IsSorted db [] = tt
sections-IsSorted db (s ∷ rows) =
    (sort_by-IsSorted (λ (f : Finding). f.sort_order) _, sections-IsSorted db rows)

pub load-findings_IsSorted :
    (db : Db) (j : Job)
    → All
        (λ (l : LoadedSection). IsSorted (λ (f : Finding). f.sort_order) l.findings)
        (load db j).sections
unfolding load
load-findings_IsSorted db j = sections-IsSorted db _
