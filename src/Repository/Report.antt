-- ===== src/Repository/Report.antt =====
-- The report tree of one job, written and read.
use field_note.Common.{
  ℕ, ◌+◌, ◌<◌, ◌≡◌, refl, ap, ◌∙◌, sym, true, false, not, List, [], ◌∷◌, ◌++◌, map, Text, ◌==◌,
  filter, filter-append, length, sort_by, sort_by_of_IsSorted, All, All-map_of, All-filter,
  All-filter_self, All-append, filter_none, filter-All, arith,
}
use mathlib.Core.List.{append_assoc, append-nil}
use field_note.Database.{Job, ReportSection, Finding, Db, ReportFindingInput, ReportSectionInput}
use field_note.Repository.{
  of_section, of_job, load_section, load, finding_rows, section_row, delete_report, replace_report,
}
use field_note.Repository.Written.{
  FindingsBelow, all_finding_rows, all_finding_rows_ids, as_input, finding_rows-IsSorted,
  finding_rows_ids, insert_sections_lem, section_rows, section_rows-IsSorted, section_rows-of_job,
  strip_finding_rows, with_rows, IsFresh,
}

-- Among older rows, its own, and those of later sections, a new section finds its own.
own_findings :
    (job_id : Text) (id k : ℕ) (s : ReportSectionInput) (old later : List Finding)
    → FindingsBelow id old
    → All (λ (f : Finding). id < f.section_id) later
    → filter
        (of_section (section_row job_id id k s))
        (old ++ (finding_rows id (id + 1) 0 s.findings ++ later))
      ≡ finding_rows id (id + 1) 0 s.findings
unfolding of_section section_row
own_findings job_id id k s old later below above =
    let own = finding_rows id (id + 1) 0 s.findings in
    let p = λ (f : Finding). f.section_id == id in
    rw
      (
        filter-append p old (own ++ later),
        filter-append p own later,
        filter_none p old (
            All-map_of (λ f. f.section_id < id) (λ f. p f ≡ false) old (λ f h. ground arith) below),
        filter_none p later (
            All-map_of (λ f. id < f.section_id) (λ f. p f ≡ false) later (λ f h. ground arith)
              above),
        filter-All p own (
            All-map_of (λ f. f.section_id ≡ id) (λ f. p f ≡ true) own (λ f h. ground arith)
              (finding_rows_ids id (id + 1) 0 s.findings)),
      )
      (append-nil own)

load_section_lem :
    (db : Db) (job_id : Text) (id k : ℕ) (s : ReportSectionInput) (old later : List Finding)
    → FindingsBelow id old
    → All (λ (f : Finding). id < f.section_id) later
    → db.findings ≡ old ++ (finding_rows id (id + 1) 0 s.findings ++ later)
    → as_input (load_section db (section_row job_id id k s)) ≡ s
unfolding load_section section_row
load_section_lem db job_id id k s old later below above e =
    let key = λ (f : Finding). f.sort_order in
    let strip = λ (fs : List Finding).
      map
        (λ (f : Finding).
          let r : ReportFindingInput = record { text = f.text; severity = f.severity } in r)
        fs in
    let row = section_row job_id id k s in
    let path : strip (sort_by key (filter (of_section row) db.findings)) ≡ s.findings =
      ap (λ fs. strip (sort_by key (filter (of_section row) fs))) e
      ∙ ap (λ fs. strip (sort_by key fs)) (own_findings job_id id k s old later below above)
      ∙ ap strip (
          sort_by_of_IsSorted key (finding_rows id (id + 1) 0 s.findings)
            (finding_rows-IsSorted id (id + 1) 0 s.findings))
      ∙ strip_finding_rows id (id + 1) 0 s.findings in
    λ i. record { title = s.title; findings = path i }

load_rows :
    (db : Db) (job_id : Text) (id k : ℕ) (ss : List ReportSectionInput) (old : List Finding)
    → FindingsBelow id old
    → db.findings ≡ old ++ all_finding_rows id ss
    → map as_input (map (load_section db) (section_rows job_id id k ss)) ≡ ss
unfolding section_rows all_finding_rows
load_rows db job_id id k [] old below e = refl
load_rows db job_id id k (s ∷ ss) old below e =
    let id' = id + 1 + length s.findings in
    let own = finding_rows id (id + 1) 0 s.findings in
    let later = all_finding_rows id' ss in
    let below' : FindingsBelow id' (old ++ own) =
      All-append (λ f. f.section_id < id') old own
        (All-map_of (λ f. f.section_id < id) (λ f. f.section_id < id') old (λ f h. omega arith)
          below)
        (All-map_of (λ f. f.section_id ≡ id) (λ f. f.section_id < id') own (λ f h. omega arith)
          (finding_rows_ids id (id + 1) 0 s.findings)) in
    cc (
      load_section_lem db job_id id k s old later below
          (all_finding_rows_ids id id' ss (omega arith)) e,
      load_rows db job_id id' (k + 1) ss (old ++ own) below' (e ∙ sym (append_assoc old own later)),
    )

delete_report-sections :
    (job_id : Text) (db : Db) → filter (of_job job_id) (delete_report job_id db).sections ≡ []
unfolding delete_report
delete_report-sections job_id db =
    let rest = λ (s : ReportSection). not (of_job job_id s) in
    filter_none (of_job job_id) (filter rest db.sections) (
      All-map_of (λ s. rest s ≡ true) (λ s. of_job job_id s ≡ false) (filter rest db.sections)
        (λ s h. ground arith) (All-filter_self rest db.sections))

delete_report-findings :
    (job_id : Text) (db : Db)
    → IsFresh db
    → FindingsBelow db.next_id (delete_report job_id db).findings
unfolding delete_report
delete_report-findings job_id db h =
    All-filter (λ f. f.section_id < db.next_id) _ db.findings h.findings_below

-- Where the ids in use are below the next one, a report that was written is read back as it was
-- written: the same sections and findings, in the same order, whatever the job held before.
pub load-replace_report :
    (j : Job) (ss : List ReportSectionInput) (db : Db)
    → IsFresh db
    → map as_input (load (replace_report j.id ss db) j).sections ≡ ss
unfolding load replace_report
load-replace_report j ss db h =
    let db' = delete_report j.id db in
    let rows = section_rows j.id db'.next_id 0 ss in
    let key = λ (s : ReportSection). s.sort_order in
    let found : filter (of_job j.id) (db'.sections ++ rows) ≡ rows =
      rw (filter-append (of_job j.id) db'.sections rows, delete_report-sections j.id db)
        (filter-All (of_job j.id) rows (section_rows-of_job j.id db'.next_id 0 ss)) in
    rw
      (
        insert_sections_lem j.id 0 ss db',
        found,
        sort_by_of_IsSorted key rows (section_rows-IsSorted j.id db'.next_id 0 ss),
      )
      (load_rows (with_rows j.id 0 ss db') j.id db'.next_id 0 ss db'.findings
        (unfold delete_report in delete_report-findings j.id db h) refl)

jobs-delete_report : (job_id : Text) (db : Db) → (delete_report job_id db).jobs ≡ db.jobs
unfolding delete_report
jobs-delete_report job_id db = refl

-- The table of jobs is not touched by a report.
pub jobs-replace_report :
    (job_id : Text) (ss : List ReportSectionInput) (db : Db)
    → (replace_report job_id ss db).jobs ≡ db.jobs
unfolding replace_report
jobs-replace_report job_id ss db =
    ap (λ (x : Db). x.jobs) (insert_sections_lem job_id 0 ss (delete_report job_id db))
    ∙ jobs-delete_report job_id db

pub events-replace_report :
    (job_id : Text) (ss : List ReportSectionInput) (db : Db)
    → (replace_report job_id ss db).events ≡ db.events
unfolding replace_report delete_report
events-replace_report job_id ss db =
    ap (λ (x : Db). x.events) (insert_sections_lem job_id 0 ss (delete_report job_id db))
