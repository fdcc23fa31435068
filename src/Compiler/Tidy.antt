-- ===== src/Compiler/Tidy.antt =====
-- server/src/processing/compiler/report-compiler.service.ts: which sections and findings of an answer
-- `normalize` keeps, as what, and in which order.
use field_note.Common.{
  ℕ, ◌≡◌, ◌≢◌, refl, ap, ◌∙◌, sym, ◌⊎◌, inl, inr, true, false, Bool-cases, List, [], ◌∷◌, map, Text,
  trim, is_empty, filter, sort_by, sort_by-perm, sort_by-IsSorted, sort_by_of_IsSorted, IsSorted,
  if◌then◌else◌, arith,
}
use mathlib.Core.List.{Perm}
use mathlib.Core.List.Perm
use field_note.Severity.{Severity, ApiSeverity, severity_from_api}
use field_note.Database.{ReportFindingInput, ReportSectionInput}
use field_note.Compiler.Schema.{CompiledFinding, CompiledSection}
use field_note.Compiler.{
  severity_rank, rank, to_input, has_text, is_kept, normal_section, normalize,
}

-- The severity that a word of the compiler stands for.
abbrev pub meant : ApiSeverity → Severity
meant ApiSeverity.safety = Severity.safety
meant ApiSeverity.repair = Severity.repair
meant ApiSeverity.maintenance = Severity.maintenance
meant ApiSeverity.info = Severity.info

-- The place of a finding by its severity: hazards, defects, upkeep, observations.
abbrev pub place : Severity → ℕ
place Severity.safety = 0
place Severity.repair = 1
place Severity.maintenance = 2
place Severity.info = 3

-- The findings that say something, trimmed.
abbrev pub spoken : List CompiledFinding → List ReportFindingInput
spoken [] = []
spoken (f ∷ fs) =
    let rest = spoken fs in
    if is_empty (trim f.text)
    then rest
    else record { text = trim f.text; severity = meant f.severity } ∷ rest

-- The section has the trimmed title and the spoken findings of the answer, the most severe first.
pub record Tidies (s : CompiledSection) (r : ReportSectionInput) : Type 0 where
  pub same_title : r.title ≡ trim s.title
  pub same_findings : Perm r.findings (spoken s.findings)
  pub by_severity : IsSorted (λ (f : ReportFindingInput). place f.severity) r.findings

-- Section by section: one without a title or without a spoken finding is dropped, and any other kept.
pub data AreTidied : List CompiledSection → List ReportSectionInput → Type 0 where
  done : AreTidied [] []
  drop :
      {s : CompiledSection} {ss : List CompiledSection} {rs : List ReportSectionInput}
      → (trim s.title ≡ []) ⊎ (spoken s.findings ≡ [])
      → AreTidied ss rs
      → AreTidied (s ∷ ss) rs
  keep :
      {s : CompiledSection} {ss : List CompiledSection} {r : ReportSectionInput}
      {rs : List ReportSectionInput}
      → trim s.title ≢ []
      → spoken s.findings ≢ []
      → Tidies s r
      → AreTidied ss rs
      → AreTidied (s ∷ ss) (r ∷ rs)

same_rank : (f : ReportFindingInput) → rank f ≡ place f.severity
unfolding rank severity_rank
same_rank f = ground arith

same_meaning : (a : ApiSeverity) → severity_from_api a ≡ meant a
unfolding severity_from_api
same_meaning a = ground arith

spoken_lem : (fs : List CompiledFinding) → filter has_text (map to_input fs) ≡ spoken fs
unfolding filter to_input
spoken_lem [] = refl
spoken_lem (f ∷ fs) = elim (Bool-cases (is_empty (trim f.text))) [
  | inl e ↦ rw e (spoken_lem fs)
  | inr e ↦ rw (e, same_meaning f.severity, spoken_lem fs) refl
]

sort_by_nil : (xs : List ReportFindingInput) → sort_by rank xs ≡ [] → xs ≡ []
sort_by_nil xs h =
    let same : Perm (sort_by rank xs) xs = sort_by-perm rank xs in
    Perm.eq-nil (Perm.symm (rw h at same))

is_kept-parts :
    (title : Text) (fs : List ReportFindingInput)
    → is_kept (record { title = title; findings = fs }) ≡ true
    → (title ≢ []) × (fs ≢ [])
is_kept-parts title fs h = (λ e. ground (arith, h, e), λ e. ground (arith, h, e))

is_kept-missing :
    (title : Text) (fs : List ReportFindingInput)
    → is_kept (record { title = title; findings = fs }) ≡ false
    → (title ≡ []) ⊎ (fs ≡ [])
is_kept-missing [] fs h = inl refl
is_kept-missing (c ∷ title) [] h = inr refl
is_kept-missing (c ∷ title) (f ∷ fs) h = absurd (ground (arith, h))

module _ (s : CompiledSection) where
  tidied : Tidies s (normal_section s)
  unfolding normal_section
  tidied =
      let fs = filter has_text (map to_input s.findings) in
      let key : rank ≡ (λ (f : ReportFindingInput). place f.severity) = λ i f. same_rank f i in
      record {
        same_title = refl;
        same_findings = rw (← spoken_lem s.findings) (sort_by-perm rank fs);
        by_severity = rw (← key) (sort_by-IsSorted rank fs);
      }

  dropped : is_kept (normal_section s) ≡ false → (trim s.title ≡ []) ⊎ (spoken s.findings ≡ [])
  unfolding normal_section
  dropped h =
      let fs = filter has_text (map to_input s.findings) in
      elim (is_kept-missing (trim s.title) (sort_by rank fs) h) [
        | inl e ↦ inl e
        | inr e ↦ inr (sym (spoken_lem s.findings) ∙ sort_by_nil fs e)
      ]

  kept : is_kept (normal_section s) ≡ true → (trim s.title ≢ []) × (spoken s.findings ≢ [])
  unfolding normal_section
  kept h =
      let fs = filter has_text (map to_input s.findings) in
      let (title, findings) = is_kept-parts (trim s.title) (sort_by rank fs) h in
      (
        title,
        λ e.
            findings
              (ap (sort_by rank) (spoken_lem s.findings ∙ e) ∙ sort_by_of_IsSorted rank [] tt),
      )

-- An answer is normalized section by section, in its order: a section without a title or without a
-- finding that says something is dropped, and of any other the title is trimmed and the findings that
-- say something are kept, each as often as there, trimmed, with their severities, and ordered by them:
-- safety, repair, maintenance, info.
pub normalize-AreTidied : (ss : List CompiledSection) → AreTidied ss (normalize ss)
unfolding normalize filter
normalize-AreTidied [] = AreTidied.done
normalize-AreTidied (s ∷ ss) = elim (Bool-cases (is_kept (normal_section s))) [
  | inl e ↦
      let (title, findings) = kept s e in
      rw e (AreTidied.keep title findings (tidied s) (normalize-AreTidied ss))
  | inr e ↦ rw e (AreTidied.drop (dropped s e) (normalize-AreTidied ss))
]
