-- ===== src/Compiler/Prompts.antt =====
-- server/src/processing/compiler/prompts.ts: the user prompt and the repair hint.
use field_note.Common.{List, [], ◌∷◌, ◌++◌, Text, codes, trim, is_empty, if◌then◌else◌}

-- Array.prototype.join
unfoldable pub join : Text → List Text → Text
join sep [] = []
join sep (x ∷ []) = x
join sep (x ∷ y ∷ rest) = x ++ (sep ++ join sep (y ∷ rest))

unfoldable pub build_report_user_prompt : Text → Text → Text
unfolding join
build_report_user_prompt label transcript =
    let property = if is_empty (trim label) then codes "the inspected property" else trim label in
    join (codes "\n") (
      (codes "Property / job label: " ++ property)
      ∷ []
      ∷ codes "Inspection walkthrough transcript:"
      ∷ codes "\"\"\""
      ∷ trim transcript
      ∷ codes "\"\"\""
      ∷ []
      ∷ codes "Compile this transcript into a structured inspection report by calling the"
      ∷ codes "emit_inspection_report tool. Remember: include only what was actually said."
      ∷ [])

unfoldable pub build_repair_hint : Text → Text
unfolding join
build_repair_hint issues = join (codes "\n") (
    codes "Your previous tool call did not match the required schema and was rejected."
    ∷ codes "Problems found:"
    ∷ issues
    ∷ []
    ∷ codes "Call the emit_inspection_report tool again with valid input. Every finding must"
    ∷ codes
        "have non-empty text and a severity of exactly one of: info, maintenance, repair, safety."
    ∷ [])
