-- ===== src/Compiler/Tool.antt =====
-- server/src/processing/compiler/prompts.ts and report.schema.ts: the system prompt, and the tool that
-- the model has to call.
use field_note.Common.{List, [], ◌∷◌, map, Text, codes}
use field_note.Severity.{api_severities, word}
use field_note.World.{Json, Items, Fields}
use field_note.Compiler.Prompts.{join}

-- REPORT_SYSTEM_PROMPT
unfoldable pub report_system_prompt : Text
unfolding join
report_system_prompt = join (codes "\n") (
    codes "You are a report compiler for professional home inspectors. You convert a raw,"
    ∷ codes "spoken inspection walkthrough transcript into a clean, structured inspection report."
    ∷ []
    ∷ codes "ABSOLUTE RULES — these override everything else:"
    ∷ codes "1. Never invent, infer, or embellish findings. Every finding MUST be grounded in"
    ∷ codes "   something the inspector actually said in the transcript. If it was not said, it"
    ∷ codes "   does not go in the report."
    ∷ codes "2. Do not add boilerplate, recommendations, code citations, or standard disclaimers"
    ∷ codes "   that the inspector did not speak."
    ∷ codes "3. Group findings under clear, conventional section headings (e.g. Roof, Exterior,"
    ∷ codes "   Electrical, Plumbing, HVAC, Kitchen, Bathrooms, Attic, Basement, Foundation,"
    ∷ codes "   Interior). Use only the sections the transcript actually covers; omit empty ones."
    ∷ codes "4. Each finding is ONE discrete observation with exactly ONE severity:"
    ∷ codes "   - info: a neutral observation or something in good/serviceable condition."
    ∷ codes "   - maintenance: routine upkeep, cleaning, or servicing recommended."
    ∷ codes "   - repair: a defect that needs correction but is not an immediate hazard."
    ∷ codes "   - safety: a condition that poses a hazard to occupants and needs prompt attention."
    ∷ codes "5. Paraphrase concisely and professionally; preserve the inspector's meaning and any"
    ∷ codes
        "   specifics they gave (locations, ages, measurements). Do not contradict the transcript."
    ∷ codes "6. Order sections in a logical inspection sequence (exterior → systems → interior) and"
    ∷ codes "   order findings within a section by severity, most severe first."
    ∷ []
    ∷ codes "Return the report ONLY by calling the provided tool. Do not write prose."
    ∷ [])

-- REPORT_TOOL_NAME
abbrev pub report_tool_name : Text
report_tool_name = codes "emit_inspection_report"

infixr 6 ◌of◌
abbrev ◌of◌ : Text × Json → Fields → Fields
(k, v) of rest = Fields.field k v rest

abbrev strings : List Text → Items
strings [] = Items.nil
strings (t ∷ ts) = Items.cons (Json.string t) (strings ts)

abbrev described : Text → Text → Fields → Json
described kind description rest =
    Json.object
      ((codes "type", Json.string kind) of (codes "description", Json.string description) of rest)

-- The schema of an object that has no other properties; `false` is a scalar.
abbrev closed : Fields → List Text → Json
closed properties required = Json.object (
    (codes "type", Json.string (codes "object"))
    of (codes "additionalProperties", Json.scalar)
    of (codes "properties", Json.object properties)
    of (codes "required", Json.array (strings required))
    of Fields.end)

-- reportToolInputSchema
finding_schema : Json
unfolding word
finding_schema =
    closed
      ((
        codes "text",
        described (codes "string")
            (codes
              "One observation, faithfully paraphrased from the transcript. Never invent details.")
            Fields.end,
      )
        of (
          codes "severity",
          Json.object (
              (codes "type", Json.string (codes "string"))
              of (codes "enum", Json.array (strings (map word api_severities)))
              of (
                codes "description",
                Json.string (
                    codes
                      "info = neutral observation; maintenance = upkeep/cleaning; repair = needs fixing; safety = hazard to occupants."),
              )
              of Fields.end),
        )
        of Fields.end)
      (codes "text" ∷ codes "severity" ∷ [])

section_schema : Json
unfolding finding_schema
section_schema =
    closed
      ((
        codes "title",
        described (codes "string")
            (codes "Short section heading, e.g. \"Roof\", \"Electrical\", \"Plumbing\".")
            Fields.end,
      )
        of (
          codes "findings",
          described (codes "array")
              (codes "Distinct observations stated in the transcript for this section.")
              ((codes "items", finding_schema) of Fields.end),
        )
        of Fields.end)
      (codes "title" ∷ codes "findings" ∷ [])

unfoldable pub report_tool_input_schema : Json
unfolding section_schema
report_tool_input_schema =
    closed
      ((
        codes "sections",
        described (codes "array")
            (codes
              "Inspection sections, in the order they should appear in the report. Omit any section with no findings.")
            ((codes "items", section_schema) of Fields.end),
      )
        of Fields.end)
      (codes "sections" ∷ [])
