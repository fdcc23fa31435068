-- ===== src/Repository/Written.antt =====
-- server/src/jobs/jobs.repository.ts: the rows that one replacement of a report adds to the tables.
use field_note.Common.{
  ℕ, ◌+◌, ◌≤◌, ◌<◌, ◌≡◌, refl, ap, ◌∙◌, true, List, [], ◌∷◌, ◌++◌, map, Text, text_eq_refl, length,
  IsSorted, All, All-map_of, All-append, arith,
}
use mathlib.Core.List.{append_assoc, append-nil}
use field_note.Database.{
  ReportSection, Finding, Db, ReportFindingInput, ReportSectionInput, LoadedSection,
}
use field_note.Repository.{of_job, finding_rows, section_row, insert_section, insert_sections}

-- Ids below `n`: rows that were there before `n` was handed out.
abbrev pub SectionsBelow : ℕ → List ReportSection → Type 0
SectionsBelow n = All (λ s. s.id < n)

abbrev pub FindingsBelow : ℕ → List Finding → Type 0
FindingsBelow n = All (λ f. f.section_id < n)

-- Every id in use is below the next one.
pub record IsFresh (db : Db) : Type 0 where
  pub sections_below : SectionsBelow db.next_id db.sections
  pub findings_below : FindingsBelow db.next_id db.findings

-- What a load reads of a section, without ids.
abbrev pub as_input : LoadedSection → ReportSectionInput
as_input l = record {
  title = l.section.title;
  findings = map (λ (f : Finding). record { text = f.text; severity = f.severity }) l.findings;
}

-- The rows that the whole loop adds.
unfoldable pub section_rows : Text → ℕ → ℕ → List ReportSectionInput → List ReportSection
section_rows job_id id k [] = []
section_rows job_id id k (s ∷ ss) =
    section_row job_id id k s ∷ section_rows job_id (id + 1 + length s.findings) (k + 1) ss

unfoldable pub all_finding_rows : ℕ → List ReportSectionInput → List Finding
all_finding_rows id [] = []
all_finding_rows id (s ∷ ss) =
    finding_rows id (id + 1) 0 s.findings ++ all_finding_rows (id + 1 + length s.findings) ss

pub next_after : ℕ → List ReportSectionInput → ℕ
next_after id [] = id
next_after id (s ∷ ss) = next_after (id + 1 + length s.findings) ss

abbrev pub with_rows : Text → ℕ → List ReportSectionInput → Db → Db
with_rows job_id k ss db = record db {
  sections = db.sections ++ section_rows job_id db.next_id k ss;
  findings = db.findings ++ all_finding_rows db.next_id ss;
  next_id = next_after db.next_id ss;
}

pub insert_sections_lem :
    (job_id : Text) (k : ℕ) (ss : List ReportSectionInput) (db : Db)
    → insert_sections job_id k ss db ≡ with_rows job_id k ss db
unfolding insert_sections section_rows all_finding_rows next_after
insert_sections_lem job_id k [] db = rw (append-nil db.sections, append-nil db.findings)
insert_sections_lem job_id k (s ∷ ss) db =
    insert_sections_lem job_id (k + 1) ss (insert_section job_id k s db)
    ∙ rw (append_assoc db.sections, append_assoc db.findings)

finding_rows_orders :
    (sid id i j : ℕ) (fs : List ReportFindingInput)
    → i ≤ j
    → All (λ (f : Finding). i ≤ f.sort_order) (finding_rows sid id j fs)
unfolding finding_rows
finding_rows_orders sid id i j [] h = tt
finding_rows_orders sid id i j (f ∷ fs) h =
    (h, finding_rows_orders sid (id + 1) i (j + 1) fs (omega arith))

pub finding_rows-IsSorted :
    (sid id i : ℕ) (fs : List ReportFindingInput)
    → IsSorted (λ (f : Finding). f.sort_order) (finding_rows sid id i fs)
unfolding finding_rows
finding_rows-IsSorted sid id i [] = tt
finding_rows-IsSorted sid id i (f ∷ fs) = (
  finding_rows_orders sid (id + 1) i (i + 1) fs (omega arith),
  finding_rows-IsSorted sid (id + 1) (i + 1) fs,
)

section_rows_orders :
    (job_id : Text) (id i j : ℕ) (ss : List ReportSectionInput)
    → i ≤ j
    → All (λ (s : ReportSection). i ≤ s.sort_order) (section_rows job_id id j ss)
unfolding section_rows section_row
section_rows_orders job_id id i j [] h = tt
section_rows_orders job_id id i j (s ∷ ss) h =
    (h, section_rows_orders job_id (id + 1 + length s.findings) i (j + 1) ss (omega arith))

pub section_rows-IsSorted :
    (job_id : Text) (id k : ℕ) (ss : List ReportSectionInput)
    → IsSorted (λ (s : ReportSection). s.sort_order) (section_rows job_id id k ss)
unfolding section_rows section_row
section_rows-IsSorted job_id id k [] = tt
section_rows-IsSorted job_id id k (s ∷ ss) = (
  section_rows_orders job_id (id + 1 + length s.findings) k (k + 1) ss (omega arith),
  section_rows-IsSorted job_id (id + 1 + length s.findings) (k + 1) ss,
)

pub finding_rows_ids :
    (sid id i : ℕ) (fs : List ReportFindingInput)
    → All (λ (f : Finding). f.section_id ≡ sid) (finding_rows sid id i fs)
unfolding finding_rows
finding_rows_ids sid id i [] = tt
finding_rows_ids sid id i (f ∷ fs) = (refl, finding_rows_ids sid (id + 1) (i + 1) fs)

pub all_finding_rows_ids :
    (n id : ℕ) (ss : List ReportSectionInput)
    → n < id
    → All (λ (f : Finding). n < f.section_id) (all_finding_rows id ss)
unfolding all_finding_rows
all_finding_rows_ids n id [] h = tt
all_finding_rows_ids n id (s ∷ ss) h =
    All-append (λ f. n < f.section_id) (finding_rows id (id + 1) 0 s.findings)
      (all_finding_rows (id + 1 + length s.findings) ss)
      (All-map_of (λ f. f.section_id ≡ id) (λ f. n < f.section_id)
        (finding_rows id (id + 1) 0 s.findings) (λ f e. omega arith)
        (finding_rows_ids id (id + 1) 0 s.findings))
      (all_finding_rows_ids n (id + 1 + length s.findings) ss (omega arith))

pub section_rows-of_job :
    (job_id : Text) (id k : ℕ) (ss : List ReportSectionInput)
    → All (λ s. of_job job_id s ≡ true) (section_rows job_id id k ss)
unfolding section_rows section_row of_job
section_rows-of_job job_id id k [] = tt
section_rows-of_job job_id id k (s ∷ ss) =
    (text_eq_refl job_id, section_rows-of_job job_id (id + 1 + length s.findings) (k + 1) ss)

pub strip_finding_rows :
    (sid id i : ℕ) (fs : List ReportFindingInput)
    → map
        (λ (f : Finding). record { text = f.text; severity = f.severity })
        (finding_rows sid id i fs)
      ≡ fs
unfolding finding_rows
strip_finding_rows sid id i [] = refl
strip_finding_rows sid id i (f ∷ fs) = ap (λ r. f ∷ r) (strip_finding_rows sid (id + 1) (i + 1) fs)
