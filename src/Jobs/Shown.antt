-- ===== src/Jobs/Shown.antt =====
-- What an answer shows of an edit: server/src/jobs/jobs.service.ts, `toReportInput`, and the order of
-- server/src/jobs/job.mapper.ts.
use field_note.Common.{
  ◌≡◌, refl, ap, ◌∙◌, sym, List, [], ◌∷◌, map, Text, sort_by, sort_by-perm, sort_by-IsSorted,
  IsSorted, arith,
}
use mathlib.Core.List.{Perm}
use field_note.Severity.{ApiSeverity, severity_from_api, severity_to_api, to_api-from_api}
use field_note.Database.{ReportFindingInput, ReportSectionInput}
use field_note.Jobs.Dto.{FindingDto, SectionDto, UpdateFindingDto, UpdateSectionDto}
use field_note.Jobs.{update_finding_input, section_input, to_report_input}

-- What a client reads of a report, without ids and positions.
abbrev pub read_finding : FindingDto → ReportFindingInput
read_finding f = record { text = f.text; severity = severity_from_api f.severity }

abbrev pub read_section : SectionDto → ReportSectionInput
read_section s = record { title = s.title; findings = map read_finding s.findings }

abbrev pub shown : FindingDto → Text × ApiSeverity
shown f = (f.text, f.severity)

abbrev pub asked : UpdateFindingDto → Text × ApiSeverity
asked f = (f.text, f.severity)

-- The section has the title and the findings of the edit, in the order of their positions.
pub record ShowsSection (s : UpdateSectionDto) (r : SectionDto) : Type 0 where
  pub same_title : r.title ≡ s.title
  pub ordered : List UpdateFindingDto
  pub same_ones : Perm ordered s.findings
  pub in_order : IsSorted (λ (f : UpdateFindingDto). f.sort_order) ordered
  pub same_findings : map shown r.findings ≡ map asked ordered

-- One after the other.
abbrev pub AreShown : List UpdateSectionDto → List SectionDto → Type 0
AreShown [] [] = Unit
AreShown (s ∷ ss) (r ∷ rs) = ShowsSection s r × AreShown ss rs
AreShown [] (r ∷ rs) = ⊥
AreShown (s ∷ ss) [] = ⊥

-- The sections are those of the edit, each as often as there, in the order of their positions.
pub record ShowsEdit (ss : List UpdateSectionDto) (rs : List SectionDto) : Type 0 where
  pub ordered : List UpdateSectionDto
  pub same_ones : Perm ordered ss
  pub in_order : IsSorted (λ (s : UpdateSectionDto). s.sort_order) ordered
  pub are_shown : AreShown ordered rs

word_of : ReportFindingInput → Text × ApiSeverity
word_of f = (f.text, severity_to_api f.severity)

word_of-read : (fs : List FindingDto) → map word_of (map read_finding fs) ≡ map shown fs
unfolding word_of
word_of-read [] = refl
word_of-read (f ∷ fs) = rw (to_api-from_api f.severity, word_of-read fs) refl

word_of-input :
    (fs : List UpdateFindingDto) → map word_of (map update_finding_input fs) ≡ map asked fs
unfolding word_of update_finding_input
word_of-input [] = refl
word_of-input (f ∷ fs) = rw (to_api-from_api f.severity, word_of-input fs) refl

section_shown :
    (s : UpdateSectionDto) (r : SectionDto) → read_section r ≡ section_input s → ShowsSection s r
unfolding section_input
section_shown s r e =
    let key = λ (f : UpdateFindingDto). f.sort_order in
    record {
      same_title = ap (λ (x : ReportSectionInput). x.title) e;
      ordered = sort_by key s.findings;
      same_ones = sort_by-perm key s.findings;
      in_order = sort_by-IsSorted key s.findings;
      same_findings =
          sym (word_of-read r.findings)
          ∙ ap (λ (x : ReportSectionInput). map word_of x.findings) e
          ∙ word_of-input (sort_by key s.findings);
    }

sections_shown :
    (ss : List UpdateSectionDto) (rs : List SectionDto)
    → map read_section rs ≡ map section_input ss
    → AreShown ss rs
sections_shown [] [] e = tt
sections_shown (s ∷ ss) (r ∷ rs) e = (section_shown s r (cc e), sections_shown ss rs (cc e))
sections_shown [] (r ∷ rs) e = absurd (ground (arith, e))
sections_shown (s ∷ ss) [] e = absurd (ground (arith, e))

-- An answer that reads as the input that the code makes of an edit shows the edit.
pub edit_shown :
    (ss : List UpdateSectionDto) (rs : List SectionDto)
    → map read_section rs ≡ to_report_input ss
    → ShowsEdit ss rs
unfolding to_report_input
edit_shown ss rs e =
    let key = λ (s : UpdateSectionDto). s.sort_order in
    record {
      ordered = sort_by key ss;
      same_ones = sort_by-perm key ss;
      in_order = sort_by-IsSorted key ss;
      are_shown = sections_shown (sort_by key ss) rs e;
    }
