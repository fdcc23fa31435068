-- ===== src/Compiler/Fit.antt =====
-- The type `CompiledReport` of server/src/processing/compiler/report.schema.ts against its schema:
-- a report as a JSON value, and the reports that the schema takes as they are.
use field_note.Common.{
  ℕ, ◌≡◌, refl, Bool, true, ◌&&◌, Option, none, some, List, [], ◌∷◌, Text, codes, text_eq,
  text_eq_iff, trim, leb, length, arith,
}
use field_note.Severity.{word, read-word}
use field_note.Result.{ok}
use field_note.World.{World, call, CompileInput, Json, Items, Fields, Services}
use field_note.Compiler.{normalize, compile}
use field_note.Compiler.Schema.{
  CompiledFinding, CompiledSection, property, get_field, trimmed_string, severity_word, each,
  array_of, parse_finding, parse_section, parse_report,
}
use field_note.Compiler.Outcome.{compile_accepts}

abbrev pub pair : Text → Json → Text → Json → Json
pair k v k' v' = Json.object (Fields.field k v (Fields.field k' v' Fields.end))

unfoldable pub finding_json : CompiledFinding → Json
finding_json f =
    pair (codes "text") (Json.string f.text) (codes "severity") (Json.string (word f.severity))

abbrev pub array : {A : Type 0} → (A → Json) → List A → Items
array g [] = Items.nil
array g (x ∷ xs) = Items.cons (g x) (array g xs)

unfoldable pub section_json : CompiledSection → Json
unfolding finding_json
section_json s =
    pair (codes "title") (Json.string s.title) (codes "findings")
      (Json.array (array finding_json s.findings))

-- The object `{ sections }`.
unfoldable pub report_json : List CompiledSection → Json
unfolding section_json
report_json ss =
    Json.object (Fields.field (codes "sections") (Json.array (array section_json ss)) Fields.end)

-- Trimmed, and from 1 to `most` characters long.
unfoldable pub text_fits : ℕ → Text → Bool
text_fits most t = text_eq (trim t) t && (leb 1 (length t) && leb (length t) most)

unfoldable pub all_fit : {A : Type 0} → (A → Bool) → List A → Bool
all_fit p [] = true
all_fit p (x ∷ xs) = p x && all_fit p xs

unfoldable pub section_fits : CompiledSection → Bool
unfolding text_fits all_fit
section_fits s =
    text_fits 200 s.title
    && (leb (length s.findings) 200
        && all_fit (λ (f : CompiledFinding). text_fits 2000 f.text) s.findings)

unfoldable pub report_fits : List CompiledSection → Bool
unfolding section_fits
report_fits ss = leb (length ss) 100 && all_fit section_fits ss

string_fits :
    (most : ℕ) (t : Text) → text_fits most t ≡ true → trimmed_string most (Json.string t) ≡ some t
unfolding text_fits trimmed_string
string_fits most t h =
    let same : trim t ≡ t = (text_eq_iff (trim t) t).0 (ground arith) in rw same (ground arith)

each_fits :
    {A : Type 0} (parse : Json → Option A) (g : A → Json) (p : A → Bool)
    → ((a : A) → p a ≡ true → parse (g a) ≡ some a)
    → (xs : List A) → all_fit p xs ≡ true
    → each parse (array g xs) ≡ some xs
unfolding each all_fit
each_fits parse g p f [] h = refl
each_fits parse g p f (x ∷ xs) h =
    rw (f x (ground arith), each_fits parse g p f xs (ground arith)) refl

array_fits :
    {A : Type 0} (most : ℕ) (parse : Json → Option A) (g : A → Json) (p : A → Bool)
    → ((a : A) → p a ≡ true → parse (g a) ≡ some a)
    → (xs : List A) → leb (length xs) most ≡ true
    → all_fit p xs ≡ true
    → array_of most parse (Json.array (array g xs)) ≡ some xs
unfolding array_of
array_fits most parse g p f xs few h = rw (each_fits parse g p f xs h, few) refl

parse_finding-finding_json :
    (f : CompiledFinding) → text_fits 2000 f.text ≡ true → parse_finding (finding_json f) ≡ some f
unfolding parse_finding finding_json property get_field text_eq severity_word
parse_finding-finding_json f h = rw (string_fits 2000 f.text h, read-word f.severity) refl

parse_section-section_json :
    (s : CompiledSection) → section_fits s ≡ true → parse_section (section_json s) ≡ some s
unfolding parse_section section_json property get_field text_eq section_fits
parse_section-section_json s h =
    let title = string_fits 200 s.title (ground arith) in
    let findings =
      array_fits 200 parse_finding finding_json _ parse_finding-finding_json s.findings
        (ground arith) (ground arith) in
    rw (title, findings) refl

pub parse_report-report_json :
    (ss : List CompiledSection) → report_fits ss ≡ true → parse_report (report_json ss) ≡ some ss
unfolding parse_report report_json property get_field text_eq report_fits
parse_report-report_json ss h =
    array_fits 100 parse_section section_json section_fits parse_section-section_json ss
      (ground arith) (ground arith)

-- Where the provider's first answer is a report within the limits of the schema, trimmed, as a JSON
-- object, it is accepted as it is: the compilation returns that report's normal form, and the provider
-- is not asked again.
pub compile_fitting :
    {C : Type 0} (S : Services C) (input : CompileInput) (w w' : World C)
    (ss : List CompiledSection)
    → report_fits ss ≡ true
    → call (S.compiler_provider input none) w ≡ (ok (report_json ss), w')
    → compile S input w ≡ (ok (normalize ss), w')
compile_fitting S input w w' ss fits asked =
    compile_accepts S input w w' (report_json ss) ss asked (parse_report-report_json ss fits)
