-- ===== src/Tests/Reports.antt =====
-- Reports, stored, compiled and rendered.
use field_note.Common.{ℕ, ◌≡◌, refl, List, [], ◌∷◌, map, codes, All, arith, any, false}
use field_note.Severity.{Severity, ApiSeverity}
use field_note.Database.{JobStatus, Job}
use field_note.World.{CompileInput, Json, Services}
use field_note.Repository.{load, replace_report}
use field_note.Repository.Report.{load-replace_report}
use field_note.Repository.Written.{IsFresh, as_input}
use field_note.Compiler.{normalize, compile, malformed_report_error, format_issues}
use field_note.Compiler.Schema.{CompiledSection}
use field_note.Compiler.Normalize.{IsNormal}
use field_note.Compiler.Tidy.{AreTidied, normalize-AreTidied}
use field_note.Compiler.Retry.{Lists, Retried, compile-Retried}
use field_note.Compiler.Outcome.{compile-IsNormal}
use field_note.Pdf.{ReportSectionView, escape_html}
use field_note.Pdf.Safety.{is_markup, escape_html-markup}
use field_note.Tests.{computed, done, services, job, world_of, report}
use field_note.Common.{Text}
use field_note.World.{call}
use field_note.Common.{some}

fresh : IsFresh (world_of JobStatus.queued).db
fresh = record { sections_below = (omega arith, tt); findings_below = (omega arith, tt) }

abbrev row : Job
row = job (codes "j2") (codes "u2") JobStatus.ready

load-replace_report_example :
    map as_input
      (load (replace_report (codes "j2") report (world_of JobStatus.queued).db) row).sections
    ≡ report
load-replace_report_example = load-replace_report row report (world_of JobStatus.queued).db fresh

-- A title to trim, an empty finding, two findings in the wrong order, and an empty section.
abbrev untidy : List CompiledSection
untidy =
    record {
      title = codes " Roof ";
      findings =
          record { text = codes " "; severity = ApiSeverity.info }
          ∷ record { text = codes "Dust"; severity = ApiSeverity.info }
          ∷ record { text = codes "Leak "; severity = ApiSeverity.safety }
          ∷ [];
    }
    ∷ record { title = codes "Walls"; findings = [] }
    ∷ []

-- The order by severity, and what is dropped.
normalize-untidy :
    normalize untidy
    ≡ record {
      title = codes "Roof";
      findings =
          record { text = codes "Leak"; severity = Severity.safety }
          ∷ record { text = codes "Dust"; severity = Severity.info }
          ∷ [];
    }
      ∷ []
unfolding computed field_note.Compiler.severity_rank
normalize-untidy = refl

normalize-AreTidied_example : AreTidied untidy (normalize untidy)
normalize-AreTidied_example = normalize-AreTidied untidy

abbrev input : CompileInput
input = record { label = codes "House"; transcript = codes "The roof leaks." }

compile-IsNormal_example : All IsNormal report
unfolding computed
compile-IsNormal_example =
    compile-IsNormal services input (world_of JobStatus.compiling) report refl

-- A provider that answers with a number both times.
abbrev malformed : Services ℕ
malformed = record services {
  compiler_provider = λ input hint. done Json.scalar;
  zod_issues = λ j. record { path = []; message = codes "Expected object, received number" } ∷ [];
}

compile-Retried_example :
    (hint : Text) × Lists (malformed.zod_issues Json.scalar) hint
    × Retried malformed
        (call (malformed.compiler_provider input (some hint)) (world_of JobStatus.compiling))
        (compile malformed input (world_of JobStatus.compiling))
unfolding computed
compile-Retried_example =
    compile-Retried malformed input (world_of JobStatus.compiling) (world_of JobStatus.compiling)
      Json.scalar refl refl

escape_html-markup_example : any is_markup (escape_html (codes "<b>\"Roof\" & 'walls'")) ≡ false
escape_html-markup_example = escape_html-markup (codes "<b>\"Roof\" & 'walls'")

abbrev views : List ReportSectionView
views =
    record {
      title = codes "Roof";
      findings =
          record { text = codes "Leak"; severity = ApiSeverity.safety }
          ∷ record { text = codes "Dust"; severity = ApiSeverity.info }
          ∷ [];
    }
    ∷ []
