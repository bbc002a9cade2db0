-- ===== src/Mcp/Tests.antt =====
-- A few JSON-RPC messages, and the properties of src/mcp.rs at one.
use figmog.Prelude.{ℕ, suc, ◌≡◌, ◌⊎◌, refl, false, Option, none, some, List, [], ◌∷◌}
use figmog.Prelude.Tests.{◌==◌, if◌then◌else◌}
use figmog.Prelude.Text.{Str, lit, str_beq, str_eq}
use figmog.Json.{Value, str, num, object, obj, end, Serde}
use figmog.Api.{Result, ok}
use figmog.Proxy.{ToolDef}
use figmog.Mcp.{ToolOutput, json, handle_message, response, content, error_content}
use figmog.Mcp.Calls.{Calls}
use figmog.Mcp.Laws.{Reply, answer_of, handle_message_lem}

abbrev call : Str → Value
call tool = object (
    (lit "id", num (lit "7"))
    ∷ (lit "method", str (lit "tools/call"))
    ∷ (lit "params", object ((lit "name", str tool) ∷ []))
    ∷ [])

abbrev parse : Str → Option Value
parse text =
    if text == lit "call"
    then some (call (lit "figmog_files"))
    else if text == lit "other"
    then some (call (lit "get_code"))
    else if text == lit "note"
    then some (object ((lit "method", str (lit "ping")) ∷ []))
    else none

abbrev serde : Serde
serde = record {
  to_string = λ v. lit "{}";
  from_str = parse;
  as_f64 = λ v. none;
  pointer = λ v p. none;
}

abbrev registry : List ToolDef
registry = record { name = lit "figmog_files"; description = []; input_schema = obj end } ∷ []

-- A handler that counts its runs.
abbrev counting : ℕ → Str → Value → ℕ × Result Str ToolOutput
counting n name args = (suc n, ok (json args))

abbrev answer : Str → ℕ × Option Value
answer message = handle_message serde counting (lit "0.0.2") message registry 0

answers_a_call :
    answer (lit "call")
    ≡ (1, some (response (num (lit "7")) (lit "result", content (lit "{}") false)))
unfolding handle_message str_beq
answers_a_call = refl

unknown_tool : answer (lit "other") ≡ (
  0,
  some (response (num (lit "7")) (lit "result", error_content (lit "unknown tool: get_code"))),
)
unfolding handle_message str_beq
unknown_tool = refl

silent_without_id : answer (lit "note") ≡ (0, none)
unfolding handle_message str_beq
silent_without_id = refl

handle_message_lem_example :
    Reply serde (lit "call") (answer (lit "call")).1
    × (((id : Value) × (name : Str) × (args : Value) × Calls serde
            (lit "call")
            registry
            id
            name
            args
          × (answer (lit "call") ≡ answer_of serde counting id 0 name args))
        ⊎ (((answer (lit "call")).0 ≡ 0)
            × ((id : Value) (name : Str) (args : Value)
                → ¬ Calls serde (lit "call") registry id name args)))
handle_message_lem_example = handle_message_lem serde counting (lit "0.0.2") (lit "call") registry 0
