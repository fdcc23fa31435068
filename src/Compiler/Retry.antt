-- ===== src/Compiler/Retry.antt =====
-- server/src/processing/compiler/report-compiler.service.ts: what follows a first answer that does not
-- fit the schema.
use field_note.Common.{
  ◌≡◌, refl, ap, ◌∙◌, sym, true, Option, none, some, List, [], ◌∷◌, ◌++◌, map, Text, codes, take,
  is_empty, All, All-map_of, if◌then◌else◌,
}
use mathlib.Core.List.{append_assoc, append-nil}
use field_note.Result.{ErrorKind, Error, Result, ok, err, pure, throw, ◌>>=◌}
use field_note.Database.{ReportSectionInput}
use field_note.World.{World, call, CompileInput, Json, Issue, Services}
use field_note.Compiler.Schema.{CompiledSection, parse_report}
use field_note.Compiler.Prompts.{join, build_repair_hint}
use field_note.Compiler.{
  normalize, issue_line, format_issues, malformed_report_error, accept_or, retry, compile,
}

-- The first text stands in the second.
abbrev pub StandsIn : Text → Text → Type 0
StandsIn t s = (before : Text) × (after : Text) × (s ≡ before ++ (t ++ after))

-- The messages of the first twelve issues stand in the text.
abbrev pub Lists : List Issue → Text → Type 0
Lists issues s = All (λ (i : Issue). StandsIn i.message s) (take 12 issues)

in_left : (t s rest : Text) → StandsIn t s → StandsIn t (s ++ rest)
in_left t s rest (a, b, e) = (
  a,
  b ++ rest,
  ap (λ x. x ++ rest) e ∙ append_assoc a (t ++ b) rest ∙ ap (λ x. a ++ x) (append_assoc t b rest),
)

in_right : (t s front : Text) → StandsIn t s → StandsIn t (front ++ s)
in_right t s front (a, b, e) =
    (front ++ a, b, ap (λ x. front ++ x) e ∙ sym (append_assoc front a (t ++ b)))

in_line : (i : Issue) → StandsIn i.message (issue_line i)
unfolding issue_line
in_line i =
    let path = join (codes ".") i.path in
    in_right i.message _ (codes "- ") (
      in_right i.message _ (if is_empty path then codes "(root)" else path)
        (in_right i.message _ (codes ": ") ([], [], sym (append-nil i.message))))

in_lines :
    (is : List Issue)
    → All (λ (i : Issue). StandsIn i.message (join (codes "\n") (map issue_line is))) is
unfolding join
in_lines [] = tt
in_lines (i ∷ []) = (in_line i, tt)
in_lines (i ∷ j ∷ is) =
    let line = issue_line i in
    let rest = join (codes "\n") (map issue_line (j ∷ is)) in
    (
      in_left i.message line (codes "\n" ++ rest) (in_line i),
      All-map_of (λ (x : Issue). StandsIn x.message rest)
          (λ (x : Issue). StandsIn x.message (line ++ (codes "\n" ++ rest))) (j ∷ is)
          (λ x h. in_right x.message _ line (in_right x.message rest (codes "\n") h))
          (in_lines (j ∷ is)),
    )

format_issues-Lists : (issues : List Issue) → Lists issues (format_issues issues)
unfolding format_issues
format_issues-Lists issues = in_lines (take 12 issues)

module _ (issues : List Issue) where
  lifted :
      (s s' : Text) → ((t : Text) → StandsIn t s → StandsIn t s') → Lists issues s → Lists issues s'
  lifted s s' f h = All-map_of _ _ (take 12 issues) (λ (i : Issue) p. f i.message p) h

  hint-Lists : Lists issues (build_repair_hint (format_issues issues))
  unfolding build_repair_hint join
  hint-Lists =
      lifted (format_issues issues) (build_repair_hint (format_issues issues))
        (λ t h.
          in_right t _
            (codes "Your previous tool call did not match the required schema and was rejected.")
            (in_right t _ (codes "\n") (
              in_right t _ (codes "Problems found:")
                (in_right t _ (codes "\n") (in_left t (format_issues issues) _ h)))))
        (format_issues-Lists issues)

  error-Lists : Lists issues (malformed_report_error (format_issues issues)).message
  unfolding malformed_report_error
  error-Lists =
      lifted (format_issues issues) _
        (λ t h.
          in_right t _ (codes "Report compiler returned malformed output after one retry:\n") h)
        (format_issues-Lists issues)

-- How a compilation goes on from the second answer, or from the error of the provider.
pub data Retried {C : Type 0} (S : Services C)
    : Result Json × World C → Result (List ReportSectionInput) × World C → Type 0 where
  provider_throws : (e : Error) (w : World C) → Retried S (err e, w) (err e, w)
  accepted :
      (second : Json) (sections : List CompiledSection) (w : World C)
      → parse_report second ≡ some sections
      → Retried S (ok second, w) (ok (normalize sections), w)
  rejected :
      (second : Json) (e : Error) (w : World C)
      → parse_report second ≡ none
      → e.kind ≡ ErrorKind.plain
      → e.permanent ≡ true
      → StandsIn (codes "malformed output after one retry") e.message
      → Lists (S.zod_issues second) e.message
      → Retried S (ok second, w) (err e, w)

malformed-StandsIn :
    (t : Text)
    → StandsIn (codes "malformed output after one retry") (malformed_report_error t).message
unfolding malformed_report_error
malformed-StandsIn t = (codes "Report compiler returned ", codes ":\n" ++ t, refl)

module _ {C : Type 0} (S : Services C) (input : CompileInput) where
  judged :
      (second : Json) (w : World C) (o : Option (List CompiledSection))
      → parse_report second ≡ o
      → Retried S
          (ok second, w)
          (accept_or S o (throw (malformed_report_error (format_issues (S.zod_issues second)))) w)
  unfolding throw pure malformed_report_error
  judged second w (some sections) e = Retried.accepted second sections w e
  judged second w none e =
      Retried.rejected second (malformed_report_error (format_issues (S.zod_issues second))) w e
        refl refl (malformed-StandsIn _) (error-Lists (S.zod_issues second))

  retried :
      (first : Json) (w : World C) (z : Result Json × World C)
      → call
          (S.compiler_provider input
            (some (build_repair_hint (format_issues (S.zod_issues first)))))
          w
        ≡ z
      → Retried S z (retry S input first w)
  unfolding retry ◌>>=◌
  retried first w (err e, w') asked = rw asked (Retried.provider_throws e w')
  retried first w (ok second, w') asked = rw asked (judged second w' (parse_report second) refl)

  -- After a first answer that does not fit the schema the provider is asked once more, with a hint in
  -- which the messages of the first twelve issues of that answer stand. Where it throws, the
  -- compilation throws the same; a second answer that fits the schema is returned, normalized; and
  -- after one that does not fit either, the compilation throws an error that is flagged as permanent,
  -- says so, and has in its text the messages of the first twelve issues of the second answer.
  pub compile-Retried :
      (w w' : World C) (first : Json)
      → call (S.compiler_provider input none) w ≡ (ok first, w')
      → parse_report first ≡ none
      → (hint : Text) × Lists (S.zod_issues first) hint
        × Retried S (call (S.compiler_provider input (some hint)) w') (compile S input w)
  unfolding compile ◌>>=◌
  compile-Retried w w' first asked unfit = (
    build_repair_hint (format_issues (S.zod_issues first)),
    hint-Lists (S.zod_issues first),
    rw (asked, unfit) (retried first w' _ refl),
  )
