-- ===== src/Compiler/Normalize.antt =====
-- What `normalize` keeps, drops and orders.
use field_note.Common.{
  ◌≡◌, ◌≢◌, true, false, Bool-cases, inl, inr, List, [], ◌∷◌, map, trim, trim_idem, is_empty,
  filter, sort_by-IsSorted, sort_by-All, IsSorted, All, All-map_of, All-filter_self, All-both,
  arith, All-filter,
}
use field_note.Database.{ReportFindingInput, ReportSectionInput}
use field_note.Compiler.Schema.{CompiledFinding, CompiledSection}
use field_note.Compiler.{rank, to_input, has_text, is_kept, normal_section, normalize}

-- A section fit for the report: a title, at least one finding, every finding with text and trimmed, the most severe
-- first.
pub record IsNormal (s : ReportSectionInput) : Type 0 where
  pub has_title : is_empty s.title ≡ false
  pub is_trimmed : trim s.title ≡ s.title
  pub has_findings : s.findings ≢ []
  pub has_texts : All (λ f. (is_empty f.text ≡ false) × (trim f.text ≡ f.text)) s.findings
  pub by_severity : IsSorted rank s.findings

map_trimmed :
    (fs : List CompiledFinding)
    → All (λ (f : ReportFindingInput). trim f.text ≡ f.text) (map to_input fs)
unfolding to_input
map_trimmed [] = tt
map_trimmed (f ∷ fs) = (trim_idem f.text, map_trimmed fs)

kept-IsNormal :
    (s : CompiledSection) → is_kept (normal_section s) ≡ true → IsNormal (normal_section s)
unfolding normal_section
kept-IsNormal s h =
    let inputs = map to_input s.findings in
    record {
      has_title = ground arith;
      is_trimmed = trim_idem s.title;
      has_findings = ground arith;
      has_texts = sort_by-All rank _ (filter has_text inputs) (
          All-map_of _ _ (filter has_text inputs) (λ f p. (ground (arith, p.0), p.1))
            (All-both _ _ (filter has_text inputs) (All-filter_self has_text inputs)
              (All-filter _ has_text inputs (map_trimmed s.findings))));
      by_severity = sort_by-IsSorted rank (filter has_text inputs);
    }

kept-All-IsNormal :
    (ss : List CompiledSection)
    → All (λ s. is_kept s ≡ true) (filter is_kept (map normal_section ss))
    → All IsNormal (filter is_kept (map normal_section ss))
unfolding filter
kept-All-IsNormal [] h = tt
kept-All-IsNormal (s ∷ ss) h = elim (Bool-cases (is_kept (normal_section s))) [
  | inl e ↦ let rest = rw e at h in rw e (kept-IsNormal s e, kept-All-IsNormal ss rest.1)
  | inr e ↦ rw e (kept-All-IsNormal ss (rw e at h))
]

-- Every section of a normalized report has a title, at least one finding, and findings that are
-- trimmed, not empty, and sorted with the most severe first.
pub normalize-IsNormal : (ss : List CompiledSection) → All IsNormal (normalize ss)
unfolding normalize
normalize-IsNormal ss = kept-All-IsNormal ss (All-filter_self is_kept (map normal_section ss))
