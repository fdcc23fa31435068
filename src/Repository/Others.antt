-- ===== src/Repository/Others.antt =====
-- The report tables of the other jobs when one job's report is written.
use field_note.Common.{
  ℕ, ◌+◌, ◌<◌, ◌≡◌, ◌≢◌, refl, ap, ◌∙◌, true, false, not, ◌&&◌, List, [], ◌∷◌, ◌++◌, map, Text,
  text_eq, text_eq_iff, ◌==◌, filter, filter-append, filter-filter, filter_none, any, any_none,
  length, sort_by, sort_by-All, map_cong, All, All-map_of, All-filter, All-filter_self, All-append,
  All-both, arith,
}
use mathlib.Core.List.{append-nil}
use field_note.Database.{Job, ReportSection, Finding, Db, ReportSectionInput}
use field_note.Repository.{
  of_section, of_job, load_section, load, finding_rows, section_row, insert_section,
  insert_sections, delete_report, replace_report,
}
use field_note.Repository.Written.{SectionsBelow, FindingsBelow, finding_rows_ids}

abbrev OneOwner : List ReportSection → Type 0
OneOwner sections =
    All (λ s. All (λ (s' : ReportSection). s'.id ≡ s.id → s'.job_id ≡ s.job_id) sections) sections

-- What holds of the report tables between calls: ids in use are below the next one, and no
-- section id belongs to two jobs.
pub record IsSound (db : Db) : Type 0 where
  pub sections_below : SectionsBelow db.next_id db.sections
  pub findings_below : FindingsBelow db.next_id db.findings
  pub one_owner : OneOwner db.sections

-- Two databases that a load of `other` cannot tell apart.
same_load :
    (db db' : Db) (j : Job)
    → filter (of_job j.id) db'.sections ≡ filter (of_job j.id) db.sections
    → All (λ s. load_section db' s ≡ load_section db s) (filter (of_job j.id) db.sections)
    → load db' j ≡ load db j
unfolding load
same_load db db' j e h =
    let key = λ (s : ReportSection). s.sort_order in
    let rows = filter (of_job j.id) db.sections in
    let path : map (load_section db') (sort_by key (filter (of_job j.id) db'.sections))
        ≡ map (load_section db) (sort_by key rows) =
      ap (λ r. map (load_section db') (sort_by key r)) e
      ∙ map_cong (load_section db') (load_section db) (sort_by key rows)
          (sort_by-All key (λ s. load_section db' s ≡ load_section db s) rows h) in
    λ i. record { job = j; sections = path i }

module _ (id : Text) (j : Job) (ne : j.id ≢ id) (db : Db) (sound : IsSound db) where
  -- Findings of another job's section survive the deletion.
  kept_findings :
      (s : ReportSection)
      → All (λ (s' : ReportSection). s'.id ≡ s.id → s'.job_id ≡ s.job_id) db.sections
      → of_job j.id s ≡ true
      → load_section (delete_report id db) s ≡ load_section db s
  unfolding load_section delete_report of_job of_section
  kept_findings s owner own =
      let keep = λ (f : Finding).
        not (
          any (λ (s' : ReportSection). text_eq s'.job_id id && s'.id == f.section_id)
            db.sections) in
      let path : filter (λ (f : Finding). f.section_id == s.id) (filter keep db.findings)
          ≡ filter (λ (f : Finding). f.section_id == s.id) db.findings =
        filter-filter _ keep db.findings λ f e. ap not (
          any_none _ db.sections (
            All-map_of _ _ db.sections
              (λ s' h. ground (arith, h, ne, text_eq_iff s.job_id j.id, text_eq_iff s'.job_id id))
              owner)) in
      λ i. record { section = s; findings = sort_by (λ (f : Finding). f.sort_order) (path i) }

  load-delete_report : load (delete_report id db) j ≡ load db j
  load-delete_report =
      same_load db (delete_report id db) j
        (unfold delete_report of_job in
          filter-filter (λ s. text_eq s.job_id j.id) (λ s. not (text_eq s.job_id id)) db.sections
            (λ s h. ground (arith, ne, text_eq_iff s.job_id j.id, text_eq_iff s.job_id id)))
        (All-map_of _ _ (filter (of_job j.id) db.sections) (λ s h. kept_findings s h.0 h.1)
          (All-both _ _ (filter (of_job j.id) db.sections)
            (All-filter _ (of_job j.id) db.sections sound.one_owner)
            (All-filter_self (of_job j.id) db.sections)))

  insert_same_sections :
      (k : ℕ) (section : ReportSectionInput)
      → filter (of_job j.id) (insert_section id k section db).sections
        ≡ filter (of_job j.id) db.sections
  unfolding insert_section section_row of_job
  insert_same_sections k section =
      let p = λ (s : ReportSection). text_eq s.job_id j.id in
      let other : text_eq id j.id ≡ false = ground (arith, ne, text_eq_iff id j.id) in
      filter-append p db.sections _
      ∙ rw (filter_none p (section_row id db.next_id k section ∷ []) (other, tt))
          (append-nil (filter p db.sections))

  insert_same_findings :
      (k : ℕ) (section : ReportSectionInput) (s : ReportSection)
      → s.id < db.next_id
      → load_section (insert_section id k section db) s ≡ load_section db s
  unfolding insert_section load_section of_section
  insert_same_findings k section s h =
      let p = λ (f : Finding). f.section_id == s.id in
      let own = finding_rows db.next_id (db.next_id + 1) 0 section.findings in
      let path : filter p (db.findings ++ own) ≡ filter p db.findings =
        filter-append p db.findings own
        ∙ rw
            (filter_none p own (
              All-map_of (λ f. f.section_id ≡ db.next_id) (λ f. p f ≡ false) own
                (λ f e. ground arith)
                (finding_rows_ids db.next_id (db.next_id + 1) 0 section.findings)))
            (append-nil (filter p db.findings)) in
      λ i. record { section = s; findings = sort_by (λ (f : Finding). f.sort_order) (path i) }

  load-insert_section :
      (k : ℕ) (section : ReportSectionInput) → load (insert_section id k section db) j ≡ load db j
  load-insert_section k section =
      same_load db (insert_section id k section db) j (insert_same_sections k section) (
        All-map_of _ _ (filter (of_job j.id) db.sections) (insert_same_findings k section)
          (All-filter _ (of_job j.id) db.sections sound.sections_below))

module _ (id : Text) (db : Db) (sound : IsSound db) where
  delete_report-IsSound : IsSound (delete_report id db)
  unfolding delete_report
  delete_report-IsSound =
      let rest = λ (s : ReportSection). not (of_job id s) in
      record {
        sections_below = All-filter _ rest db.sections sound.sections_below;
        findings_below = All-filter _ _ db.findings sound.findings_below;
        one_owner =
            All-map_of _ _ (filter rest db.sections) (λ s h. All-filter _ rest db.sections h)
              (All-filter _ rest db.sections sound.one_owner);
      }

  insert_section-IsSound :
      (k : ℕ) (section : ReportSectionInput) → IsSound (insert_section id k section db)
  unfolding insert_section section_row
  insert_section-IsSound k section =
      let n = db.next_id + 1 + length section.findings in
      let own = finding_rows db.next_id (db.next_id + 1) 0 section.findings in
      let row = section_row id db.next_id k section in
      record {
        sections_below =
            All-append (λ s. s.id < n) db.sections (row ∷ [])
              (All-map_of (λ s. s.id < db.next_id) (λ s. s.id < n) db.sections (λ s h. omega arith)
                sound.sections_below)
              (omega arith);
        findings_below =
            All-append (λ f. f.section_id < n) db.findings own
              (All-map_of (λ f. f.section_id < db.next_id) (λ f. f.section_id < n) db.findings
                (λ f h. omega arith) sound.findings_below)
              (All-map_of (λ f. f.section_id ≡ db.next_id) (λ f. f.section_id < n) own
                (λ f e. omega arith)
                (finding_rows_ids db.next_id (db.next_id + 1) 0 section.findings));
        one_owner =
            All-append _ db.sections (row ∷ [])
              (All-map_of _ _ db.sections
                (λ s h.
                  All-append _ db.sections (row ∷ []) h.1
                    (λ e. absurd (let lt : s.id < db.next_id = h.0 in omega arith), tt))
                (All-both _ _ db.sections sound.sections_below sound.one_owner))
              (
                All-append _ db.sections (row ∷ [])
                    (All-map_of (λ s. s.id < db.next_id) (λ s. s.id ≡ db.next_id → s.job_id ≡ id)
                      db.sections (λ s h e. absurd (omega arith)) sound.sections_below)
                    (λ e. refl, tt),
                tt,
              );
      }

insert_sections-IsSound :
    (id : Text) (k : ℕ) (ss : List ReportSectionInput) (db : Db)
    → IsSound db
    → IsSound (insert_sections id k ss db)
unfolding insert_sections
insert_sections-IsSound id k [] db h = h
insert_sections-IsSound id k (s ∷ ss) db h =
    insert_sections-IsSound id (k + 1) ss (insert_section id k s db)
      (insert_section-IsSound id db h k s)

load-insert_sections :
    (id : Text) (j : Job) (k : ℕ) (ss : List ReportSectionInput) (db : Db)
    → j.id ≢ id
    → IsSound db
    → load (insert_sections id k ss db) j ≡ load db j
unfolding insert_sections
load-insert_sections id j k [] db ne h = refl
load-insert_sections id j k (s ∷ ss) db ne h =
    load-insert_sections id j (k + 1) ss (insert_section id k s db) ne
      (insert_section-IsSound id db h k s)
    ∙ load-insert_section id j ne db h k s

-- Replacing a report keeps the tables sound.
pub replace_report-IsSound :
    (id : Text) (ss : List ReportSectionInput) (db : Db)
    → IsSound db
    → IsSound (replace_report id ss db)
unfolding replace_report
replace_report-IsSound id ss db h =
    insert_sections-IsSound id 0 ss (delete_report id db) (delete_report-IsSound id db h)

-- Replacing one job's report changes nothing that a load of another job reads.
pub load-replace_report_other :
    (id : Text) (j : Job) (ss : List ReportSectionInput) (db : Db)
    → j.id ≢ id
    → IsSound db
    → load (replace_report id ss db) j ≡ load db j
unfolding replace_report
load-replace_report_other id j ss db ne h =
    load-insert_sections id j 0 ss (delete_report id db) ne (delete_report-IsSound id db h)
    ∙ load-delete_report id j ne db h
