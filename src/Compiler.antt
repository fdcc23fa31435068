-- ===== src/Compiler.antt =====
-- server/src/processing/compiler/report-compiler.service.ts: validate, retry once, normalize.
pub mod Schema
pub mod Prompts
pub mod Keeps
pub mod Normalize
pub mod Outcome
pub mod Retry
pub mod Tidy
pub mod Fit
pub mod Mock
pub mod Tool
pub mod DeepSeek
pub mod Answers
use field_note.Common.{
  ℕ, Bool, true, false, not, ◌&&◌, Option, none, some, List, [], ◌∷◌, ◌++◌, map, Text, codes, trim,
  take, is_empty, filter, sort_by, if◌then◌else◌,
}
use field_note.Severity.{Severity, severity_from_api}
use field_note.Result.{ErrorKind, Error, Result, ok, err, M, pure, throw, continue, ◌>>=◌, ◌>>◌}
use field_note.Database.{ReportFindingInput, ReportSectionInput}
use field_note.World.{World, Action, call, CompileInput, Json, Issue, Services}
use Schema.{CompiledFinding, CompiledSection, parse_report}
use Prompts.{build_repair_hint, join}

-- SEVERITY_RANK: the most severe first
unfoldable pub severity_rank : Severity → ℕ
severity_rank Severity.safety = 0
severity_rank Severity.repair = 1
severity_rank Severity.maintenance = 2
severity_rank Severity.info = 3

unfoldable pub rank : ReportFindingInput → ℕ
unfolding severity_rank
rank f = severity_rank f.severity

unfoldable pub to_input : CompiledFinding → ReportFindingInput
to_input f = record { text = trim f.text; severity = severity_from_api f.severity }

abbrev pub has_text : ReportFindingInput → Bool
has_text f = not (is_empty f.text)

unfoldable pub normal_section : CompiledSection → ReportSectionInput
unfolding rank to_input
normal_section section = record {
  title = trim section.title;
  findings = sort_by rank (filter has_text (map to_input section.findings));
}

abbrev pub is_kept : ReportSectionInput → Bool
is_kept section =
    not (is_empty section.title) && elim section.findings [ [] ↦ false | f ∷ fs ↦ true ]

unfoldable pub normalize : List CompiledSection → List ReportSectionInput
unfolding normal_section
normalize sections = filter is_kept (map normal_section sections)

-- `i.path.join('.') || '(root)'`
pub issue_line : Issue → Text
issue_line i =
    let path = join (codes ".") i.path in
    codes "- " ++ ((if is_empty path then codes "(root)" else path) ++ (codes ": " ++ i.message))

-- formatIssues: the first twelve
unfoldable pub format_issues : List Issue → Text
unfolding issue_line
format_issues issues = join (codes "\n") (map issue_line (take 12 issues))

-- MalformedReportError
unfoldable pub malformed_report_error : Text → Error
malformed_report_error issues = record {
  kind = ErrorKind.plain;
  permanent = true;
  message = codes "Report compiler returned malformed output after one retry:\n" ++ issues;
}

module _ {C : Type 0} (S : Services C) where
  abbrev accept_or :
      Option (List CompiledSection)
      → Action C (List ReportSectionInput)
      → Action C (List ReportSectionInput)
  accept_or none otherwise = otherwise
  accept_or (some sections) otherwise = pure (normalize sections)

  -- The second and last attempt, with the hint.
  retry : CompileInput → Json → Action C (List ReportSectionInput)
  unfolding normalize format_issues malformed_report_error
  retry input first = do
    let hint = build_repair_hint (format_issues (S.zod_issues first))
    second ← call (S.compiler_provider input (some hint))
    accept_or (parse_report second)
        (throw (malformed_report_error (format_issues (S.zod_issues second))))

  unfoldable pub compile : CompileInput → Action C (List ReportSectionInput)
  unfolding retry
  compile input = do
    first ← call (S.compiler_provider input none)
    accept_or (parse_report first) (retry input first)
