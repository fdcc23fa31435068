-- ===== src/Compiler/DeepSeek.antt =====
-- server/src/processing/compiler/deepseek.provider.ts: the report compiler that calls a chat model
-- with one tool, with the tool of report.schema.ts and the system prompt of prompts.ts. The client of
-- the chat API and `JSON.parse` are parameters.
use field_note.Common.{
  ℕ, ◌≡◌, refl, Bool, Option, none, some, List, [], ◌∷◌, ◌++◌, Text, codes, text_eq, is_empty,
  find?, if◌then◌else◌,
}
use field_note.Result.{ErrorKind, Error, error, Result, ok, err, M, lift, ◌>>=◌}
use field_note.World.{call, CompileInput, Json}
use field_note.Compiler.Prompts.{build_report_user_prompt}
use field_note.Compiler.Tool.{report_system_prompt, report_tool_input_schema, report_tool_name}

-- The request of the chat API; the one tool is also the forced choice.
pub record ChatRequest : Type 0 where
  pub model : Text
  pub max_tokens : ℕ
  pub temperature : ℕ
  pub system : Text
  pub user : Text
  pub tool_name : Text
  pub tool_description : Text
  pub tool_parameters : Json

pub record ToolCall : Type 0 where
  pub name : Text
  pub arguments : Text

-- The answer: the tool calls of each choice, where its message has any.
pub record ChatResponse : Type 0 where
  pub choices : List (Option (List ToolCall))

-- How the client was made.
pub record DeepSeekConfig : Type 0 where
  pub model : Text
  pub max_tokens : ℕ

unfoldable pub user_text : CompileInput → Option Text → Text
unfolding build_report_user_prompt
user_text input none = build_report_user_prompt input.label input.transcript
user_text input (some hint) =
    let prompt = build_report_user_prompt input.label input.transcript in
    if is_empty hint then prompt else prompt ++ (codes "\n\n" ++ hint)

unfoldable pub chat_request : DeepSeekConfig → CompileInput → Option Text → ChatRequest
unfolding user_text report_system_prompt report_tool_input_schema
chat_request cfg input hint = record {
  model = cfg.model;
  max_tokens = cfg.max_tokens;
  temperature = 0;
  system = report_system_prompt;
  user = user_text input hint;
  tool_name = report_tool_name;
  tool_description = codes "Emit the structured inspection report compiled from the transcript.";
  tool_parameters = report_tool_input_schema;
}

unfoldable pub is_tool : ToolCall → Bool
is_tool call = text_eq call.name report_tool_name

abbrev arguments_of : Option ToolCall → Option Text
arguments_of none = none
arguments_of (some call) = if is_empty call.arguments then none else some call.arguments

-- The arguments of the first choice's call of the tool; empty ones are falsy.
unfoldable pub tool_arguments : ChatResponse → Option Text
unfolding is_tool
tool_arguments r = elim r.choices [
  | [] ↦ none
  | choice ∷ rest ↦ elim choice [ none ↦ none | some calls ↦ arguments_of (find? is_tool calls) ]
]

unfoldable pub no_tool_call : Error
no_tool_call = error ErrorKind.plain (codes "Report compiler did not return a tool call")

unfoldable pub not_json : Error
not_json = error ErrorKind.plain (codes "Report compiler returned non-JSON tool arguments")

module _ (json_parse : Text → Option Json) where
  parsed : Option Json → Result Json
  unfolding not_json
  parsed none = err not_json
  parsed (some j) = ok j

  read_arguments : Option Text → Result Json
  unfolding parsed no_tool_call
  read_arguments none = err no_tool_call
  read_arguments (some raw) = parsed (json_parse raw)

  unfoldable pub read_response : ChatResponse → Result Json
  unfolding read_arguments tool_arguments
  read_response r = read_arguments (tool_arguments r)

  pub read_response-none :
      (r : ChatResponse) → tool_arguments r ≡ none → read_response r ≡ err no_tool_call
  unfolding read_response read_arguments
  read_response-none r h = rw h refl

  pub read_response_bad :
      (r : ChatResponse) (raw : Text)
      → tool_arguments r ≡ some raw
      → json_parse raw ≡ none
      → read_response r ≡ err not_json
  unfolding read_response read_arguments parsed
  read_response_bad r raw h bad = rw (h, bad) refl

module _ {C : Type 0} (cfg : DeepSeekConfig) (chat : ChatRequest → M C ChatResponse)
    (json_parse : Text → Option Json) where
  -- DeepSeekReportCompiler.compile
  unfoldable pub deepseek_compile : CompileInput → Option Text → M C Json
  unfolding chat_request read_response
  deepseek_compile input hint = do
    response ← chat (chat_request cfg input hint)
    lift (read_response json_parse response)
