-- ===== src/Pdf/Safety.antt =====
-- What the rendered document holds of the texts of a report.
use field_note.Common.{
  ℕ, suc, ◌+◌, ◌≡◌, refl, ◌∙◌, Bool, false, ◌||◌, List, [], ◌∷◌, Text, ◌==◌, any, any-append, count,
  length, arith, if◌then◌else◌,
}
use field_note.Severity.{ApiSeverity}
use field_note.Pdf.{
  ReportFindingView, ReportSectionView, escape_char, escape_html, same_severity, count_by_severity,
  total_findings,
}

-- A character that opens or closes a tag or an attribute.
abbrev pub is_markup : ℕ → Bool
is_markup c = c == b'<' || c == b'>' || c == b'"' || c == b'\''

escape_char-markup : (c : ℕ) → any is_markup (escape_char c) ≡ false
unfolding escape_char any
escape_char-markup c = ground arith

-- Escaped text has no character that opens or closes a tag or an attribute, whatever was said.
pub escape_html-markup : (t : Text) → any is_markup (escape_html t) ≡ false
unfolding escape_html any
escape_html-markup [] = refl
escape_html-markup (c ∷ s) =
    any-append is_markup (escape_char c) (escape_html s)
    ∙ rw (escape_char-markup c, escape_html-markup s) refl

counted_once :
    (s : ApiSeverity) (a b c d n : ℕ)
    → a + (b + (c + d)) ≡ n
    → (if same_severity s ApiSeverity.safety then suc a else a)
        + ((if same_severity s ApiSeverity.repair then suc b else b)
            + ((if same_severity s ApiSeverity.maintenance then suc c else c)
                + (if same_severity s ApiSeverity.info then suc d else d)))
      ≡ suc n
unfolding same_severity
counted_once ApiSeverity.safety a b c d n h = omega (arith, h)
counted_once ApiSeverity.repair a b c d n h = omega (arith, h)
counted_once ApiSeverity.maintenance a b c d n h = omega (arith, h)
counted_once ApiSeverity.info a b c d n h = omega (arith, h)

abbrev of_severity : ApiSeverity → List ReportFindingView → ℕ
of_severity sev fs = count (λ f. same_severity f.severity sev) fs

section_counts :
    (fs : List ReportFindingView)
    → of_severity ApiSeverity.safety fs
        + (of_severity ApiSeverity.repair fs
            + (of_severity ApiSeverity.maintenance fs + of_severity ApiSeverity.info fs))
      ≡ length fs
unfolding count
section_counts [] = refl
section_counts (f ∷ fs) = counted_once f.severity _ _ _ _ _ (section_counts fs)

-- The four chips of the summary add up to the number of findings in the header of the document.
pub total_findings-count_by_severity :
    (sections : List ReportSectionView)
    → count_by_severity sections ApiSeverity.safety
        + (count_by_severity sections ApiSeverity.repair
            + (count_by_severity sections ApiSeverity.maintenance
                + count_by_severity sections ApiSeverity.info))
      ≡ total_findings sections
unfolding count_by_severity total_findings
total_findings-count_by_severity [] = refl
total_findings-count_by_severity (s ∷ sections) =
    let here = section_counts s.findings in
    let rest = total_findings-count_by_severity sections in omega (arith, here, rest)
