-- ===== src/Compiler/Answers.antt =====
-- server/src/processing/compiler/report-compiler.service.ts over deepseek.provider.ts: answers of the
-- chat model that are no report.
use field_note.Common.{
  ◌≡◌, ◌≢◌, refl, false, Option, none, some, List, [], ◌∷◌, ◌++◌, Text, codes, text_eq_iff,
  is_empty, find?, All, Bool-cases, inl, inr,
}
use field_note.Result.{ErrorKind, Error, ok, err, M}
use field_note.World.{World, run, CompileInput, Json, Services}
use field_note.Compiler.{compile}
use field_note.Compiler.DeepSeek.{
  DeepSeekConfig, ChatRequest, ChatResponse, ToolCall, chat_request, is_tool, tool_arguments,
  read_response, read_response-none, read_response_bad, deepseek_compile, no_tool_call, not_json,
}

abbrev pub tool_name : Text
tool_name = codes "emit_inspection_report"

abbrev pub AreOther : List ToolCall → Type 0
AreOther = All (λ (call : ToolCall). call.name ≢ tool_name)

-- The first message calls the tool, with these arguments in the first of such calls.
pub record Calls (r : ChatResponse) (arguments : Text) : Type 0 where
  pub before : List ToolCall
  pub call : ToolCall
  pub after : List ToolCall
  pub rest : List (Option (List ToolCall))
  pub answered : r.choices ≡ some (before ++ call ∷ after) ∷ rest
  pub others : AreOther before
  pub named : call.name ≡ tool_name
  pub carries : call.arguments ≡ arguments

-- An answer that is no report, and what is said of it: nothing calls the tool, or the first call of it
-- has no arguments, or arguments that are no JSON.
pub data Unreadable (json_parse : Text → Option Json) (r : ChatResponse) : Text → Type 0 where
  no_choice :
      r.choices ≡ [] → Unreadable json_parse r (codes "Report compiler did not return a tool call")
  no_calls :
      (rest : List (Option (List ToolCall)))
      → r.choices ≡ none ∷ rest
      → Unreadable json_parse r (codes "Report compiler did not return a tool call")
  other_calls :
      (calls : List ToolCall) (rest : List (Option (List ToolCall)))
      → r.choices ≡ some calls ∷ rest
      → AreOther calls
      → Unreadable json_parse r (codes "Report compiler did not return a tool call")
  no_arguments :
      Calls r [] → Unreadable json_parse r (codes "Report compiler did not return a tool call")
  no_json :
      (arguments : Text)
      → Calls r arguments
      → is_empty arguments ≡ false
      → json_parse arguments ≡ none
      → Unreadable json_parse r (codes "Report compiler returned non-JSON tool arguments")

other-is_tool : (call : ToolCall) → call.name ≢ tool_name → is_tool call ≡ false
unfolding is_tool
other-is_tool call ne = elim (Bool-cases (is_tool call)) [
  | inl e ↦ absurd (ne ((text_eq_iff call.name tool_name).0 e))
  | inr e ↦ e
]

find_others : (calls : List ToolCall) → AreOther calls → find? is_tool calls ≡ none
unfolding find?
find_others [] h = refl
find_others (call ∷ calls) h = rw (other-is_tool call h.0) (find_others calls h.1)

find_called :
    (before after : List ToolCall) (call : ToolCall)
    → AreOther before
    → call.name ≡ tool_name
    → find? is_tool (before ++ call ∷ after) ≡ some call
unfolding find? is_tool
find_called [] after call h named = rw ((text_eq_iff call.name tool_name).1 named) refl
find_called (other ∷ before) after call h named =
    rw (other-is_tool other h.0) (find_called before after call h.1 named)

module _ (r : ChatResponse) where
  called_empty : Calls r [] → tool_arguments r ≡ none
  unfolding tool_arguments
  called_empty c =
      rw (c.answered, find_called c.before c.after c.call c.others c.named, c.carries) refl

  called_with :
      (arguments : Text)
      → Calls r arguments
      → is_empty arguments ≡ false
      → tool_arguments r ≡ some arguments
  unfolding tool_arguments
  called_with arguments c filled =
      rw (c.answered, find_called c.before c.after c.call c.others c.named, c.carries, filled) refl

module _ (json_parse : Text → Option Json) (r : ChatResponse) where
  -- A plain error with the message, which does not carry the permanent flag.
  abbrev Says : Text → Error → Type 0
  Says m e = (e.kind ≡ ErrorKind.plain) × (e.permanent ≡ false) × (e.message ≡ m)

  Unreadable-throws :
      (m : Text)
      → Unreadable json_parse r m
      → (e : Error) × (read_response json_parse r ≡ err e) × Says m e
  unfolding tool_arguments no_tool_call not_json
  Unreadable-throws _ (Unreadable.no_choice h) =
      (no_tool_call, read_response-none json_parse r (rw h refl), (refl, refl, refl))
  Unreadable-throws _ (Unreadable.no_calls rest h) =
      (no_tool_call, read_response-none json_parse r (rw h refl), (refl, refl, refl))
  Unreadable-throws _ (Unreadable.other_calls calls rest h others) = (
    no_tool_call,
    read_response-none json_parse r (rw (h, find_others calls others) refl),
    (refl, refl, refl),
  )
  Unreadable-throws _ (Unreadable.no_arguments c) =
      (no_tool_call, read_response-none json_parse r (called_empty r c), (refl, refl, refl))
  Unreadable-throws _ (Unreadable.no_json arguments c filled bad) = (
    not_json,
    read_response_bad json_parse r arguments (called_with r arguments c filled) bad,
    (refl, refl, refl),
  )

module _ {C : Type 0} (S : Services C) (cfg : DeepSeekConfig)
    (chat : ChatRequest → M C ChatResponse) (json_parse : Text → Option Json) where
  abbrev over_deepseek : Services C
  over_deepseek = record S { compiler_provider = deepseek_compile cfg chat json_parse }

  -- Where the first answer has no choice, no tool calls, no call of `emit_inspection_report`, or one
  -- without arguments or with arguments that are no JSON, the compilation throws an error that says
  -- so, which is neither unrecoverable nor flagged as permanent; the model is not asked again within
  -- this attempt.
  pub compile-Unreadable :
      (input : CompileInput) (w : World C) (r : ChatResponse) (c : C) (m : Text)
      → chat (chat_request cfg input none) w.cloud ≡ (ok r, c)
      → Unreadable json_parse r m
      → (e : Error) × (compile over_deepseek input w ≡ (err e, record w { cloud = c }))
        × (e.kind ≡ ErrorKind.plain)
        × (e.permanent ≡ false)
        × (e.message ≡ m)
  unfolding compile deepseek_compile run
  compile-Unreadable input w r c m asked bad =
      let (e, thrown, (plain, free, says)) = Unreadable-throws json_parse r m bad in
      (e, rw (asked, thrown) refl, plain, free, says)
