-- ===== src/Compiler/Keeps.antt =====
-- The database through a compilation.
use field_note.Common.{Option, none, some, List}
use field_note.Database.{Db, ReportSectionInput}
use field_note.World.{Action, CompileInput, Json, Services}
use field_note.World.Keeps.{Keeps, Keeps-pure, Keeps-throw, Keeps-call, Keeps-bind}
use field_note.Compiler.Schema.{CompiledSection, parse_report}
use field_note.Compiler.{accept_or, retry, compile}

module _ {C : Type 0} (S : Services C) {P : Db → Type 0} where
  accept-Keeps :
      (o : Option (List CompiledSection)) (m : Action C (List ReportSectionInput))
      → Keeps P m
      → Keeps P (accept_or S o m)
  accept-Keeps none m h = h
  accept-Keeps (some sections) m h = Keeps-pure _

  retry-Keeps : (input : CompileInput) (first : Json) → Keeps P (retry S input first)
  unfolding retry
  retry-Keeps input first =
      Keeps-bind _ _ (Keeps-call _) (λ second. accept-Keeps (parse_report second) _ (Keeps-throw _))

  pub compile-Keeps : (input : CompileInput) → Keeps P (compile S input)
  unfolding compile
  compile-Keeps input =
      Keeps-bind _ _ (Keeps-call _)
        (λ first. accept-Keeps (parse_report first) _ (retry-Keeps input first))
