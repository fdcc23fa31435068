-- ===== src/Compiler/Schema.antt =====
-- server/src/processing/compiler/report.schema.ts: `compiledReportSchema.safeParse`, on the value
-- that the provider returned. Strings are trimmed before they are measured.
use field_note.Common.{
  ℕ, ◌&&◌, Option, none, some, List, [], ◌∷◌, Text, codes, text_eq, trim, leb, length,
  if◌then◌else◌,
}
use field_note.Severity.{ApiSeverity, read_severity}
use field_note.World.{Json, Items, Fields}

pub record CompiledFinding : Type 0 where
  pub text : Text
  pub severity : ApiSeverity

pub record CompiledSection : Type 0 where
  pub title : Text
  pub findings : List CompiledFinding

infixl 5 ◌>>=◌
abbrev pub ◌>>=◌ {ℓ κ} : {A : Type ℓ} {B : Type κ} → Option A → (A → Option B) → Option B
none >>= f = none
some a >>= f = f a

unfoldable pub get_field : Text → Fields → Option Json
unfolding text_eq
get_field name Fields.end = none
get_field name (Fields.field k v rest) =
    let r = get_field name rest in if text_eq k name then some v else r

-- z.object: the named property of an object; unknown properties are dropped
unfoldable pub property : Text → Json → Option Json
unfolding get_field
property name (Json.object fields) = get_field name fields
property name _ = none

-- z.string().trim().min(1).max(most)
unfoldable pub trimmed_string : ℕ → Json → Option Text
trimmed_string most (Json.string t) =
    let s = trim t in if leb 1 (length s) && leb (length s) most then some s else none
trimmed_string most _ = none

-- z.enum(API_SEVERITIES)
unfoldable pub severity_word : Json → Option ApiSeverity
severity_word (Json.string t) = read_severity t
severity_word _ = none

-- z.array(item).max(most): every item passes
unfoldable pub each {ℓ} : {A : Type ℓ} → (Json → Option A) → Items → Option (List A)
each parse Items.nil = some []
each parse (Items.cons j rest) = do a ← parse j; as' ← each parse rest; some (a ∷ as')

abbrev at_most {ℓ} : {A : Type ℓ} → ℕ → List A → Option (List A)
at_most most l = if leb (length l) most then some l else none

unfoldable pub array_of {ℓ} : {A : Type ℓ} → ℕ → (Json → Option A) → Json → Option (List A)
unfolding each
array_of most parse (Json.array items) = do l ← each parse items; at_most most l
array_of most parse _ = none

-- compiledFindingSchema
unfoldable pub parse_finding : Json → Option CompiledFinding
unfolding property trimmed_string severity_word
parse_finding j = do
  text ← property (codes "text") j
  text' ← trimmed_string 2000 text
  severity ← property (codes "severity") j
  severity' ← severity_word severity
  some (record { text = text'; severity = severity' })

-- compiledSectionSchema
unfoldable pub parse_section : Json → Option CompiledSection
unfolding property trimmed_string array_of parse_finding
parse_section j = do
  title ← property (codes "title") j
  title' ← trimmed_string 200 title
  findings ← property (codes "findings") j
  findings' ← array_of 200 parse_finding findings
  some (record { title = title'; findings = findings' })

-- compiledReportSchema
unfoldable pub parse_report : Json → Option (List CompiledSection)
unfolding property array_of parse_section
parse_report j = do sections ← property (codes "sections") j; array_of 100 parse_section sections
