-- ===== src/Compiler/Outcome.antt =====
-- What `compile` returns and throws.
use field_note.Common.{◌≡◌, refl, sym, Option, none, some, List, All}
use field_note.Result.{ok, pure, throw, ◌>>=◌}
use field_note.Database.{ReportSectionInput}
use field_note.World.{World, Action, call, CompileInput, Json, Services}
use field_note.World.Returns.{bind_ok}
use field_note.Compiler.Schema.{CompiledSection, parse_report}
use field_note.Compiler.{normalize, accept_or, retry, compile}
use field_note.Compiler.Normalize.{IsNormal, normalize-IsNormal}

module _ {C : Type 0} (S : Services C) (input : CompileInput) (w w' : World C) (first : Json) where
  -- A first answer that fits the schema is the only call.
  pub compile_accepts :
      (sections : List CompiledSection)
      → call (S.compiler_provider input none) w ≡ (ok first, w')
      → parse_report first ≡ some sections
      → compile S input w ≡ (ok (normalize sections), w')
  unfolding compile ◌>>=◌ pure
  compile_accepts sections asked fits = rw (asked, fits) refl

module _ {C : Type 0} (S : Services C) where
  accept_or-IsNormal :
      (o : Option (List CompiledSection)) (m : Action C (List ReportSectionInput)) (w : World C)
      (ss : List ReportSectionInput)
      → ((m w).0 ≡ ok ss → All IsNormal ss)
      → (accept_or S o m w).0 ≡ ok ss
      → All IsNormal ss
  unfolding pure
  accept_or-IsNormal none m w ss f h = f h
  accept_or-IsNormal (some sections) m w ss f h =
      let e : normalize sections ≡ ss = cc h in rw (sym e) (normalize-IsNormal sections)

  -- Whatever the provider answers, a report that `compile` returns is normal: each section has a
  -- title and findings, and the findings are trimmed, not empty, and sorted by severity.
  pub compile-IsNormal :
      (input : CompileInput) (w : World C) (ss : List ReportSectionInput)
      → (compile S input w).0 ≡ ok ss
      → All IsNormal ss
  unfolding compile retry throw
  compile-IsNormal input w ss h =
      let (first, e, p) = bind_ok _ _ w ss h in
      accept_or-IsNormal (parse_report first) (retry S input first) _ ss
        (λ h'.
          let (second, e', p') = bind_ok _ _ _ ss h' in
          accept_or-IsNormal (parse_report second) (throw _) _ ss (λ x. cc x) (rw p' at h'))
        (rw p at h)
