-- ===== src/Mcp.antt =====
-- src/mcp.rs: the dispatch of one JSON-RPC message. A tool's handler is a step on a state of its own.
pub mod Calls
pub mod Laws
mod Tests
use figmog.Prelude.{Bool, true, false, ◌||◌, Option, none, some, List, [], ◌∷◌, ◌++◌, map}
use figmog.Prelude.Tests.{◌==◌, if◌then◌else◌}
use figmog.Prelude.Text.{Str, lit, str_eq}
use figmog.Prelude.Members.{member}
use figmog.Json.{Value, null, bool, num, str, obj, end, Serde, get, as_str, array, object, ◌>>=◌}
use figmog.Api.{Result, ok, err}
use figmog.Flatten.Walk.{or_else}
use figmog.Proxy.{ToolDef, names, starts_with}

abbrev instructions : Str
instructions =
    lit
      "figmog is your Figma server: a local, instant mirror of one Figma file plus a cached proxy to "
    ++ lit
        "Figma's native capabilities. Call figmog for everything Figma-related. figmog_* tools answer "
    ++ lit "from the local mirror at zero API cost; native-named tools (get_*, "
    ++ (226 ∷ 128 ∷ 166 ∷ [])
    ++ lit
        ") go to Figma, cached by file version where possible. Pass the Figma file URL as the `file` "
    ++ lit "argument when you have one; figmog mirrors files on first reference."

abbrev default_protocol_version : Str
default_protocol_version = lit "2025-06-18"

abbrev server_name : Str
server_name = lit "figmog"

pub data ToolOutput : Type 0 where
  json : Value → ToolOutput
  raw : Value → ToolOutput

abbrev pub text_block : Str → Value
text_block text = object ((lit "type", str (lit "text")) ∷ (lit "text", str text) ∷ [])

abbrev pub content : Str → Bool → Value
content text is_error =
    object ((lit "content", array (text_block text ∷ [])) ∷ (lit "isError", bool is_error) ∷ [])

unfoldable pub error_content : Str → Value
error_content msg = content msg true

-- `version` is `env!("CARGO_PKG_VERSION")`.
unfoldable pub initialize_result : Str → Value → Value
initialize_result version params = object (
    (
      lit "protocolVersion",
      str (or_else (get params (lit "protocolVersion") >>= as_str) default_protocol_version),
    )
    ∷ (lit "capabilities", object ((lit "tools", obj end) ∷ []))
    ∷ (lit "serverInfo", object ((lit "name", str server_name) ∷ (lit "version", str version) ∷ []))
    ∷ (lit "instructions", str instructions)
    ∷ [])

abbrev pub tool_row : ToolDef → Value
tool_row t = object (
    (lit "name", str t.name)
    ∷ (lit "description", str t.description)
    ∷ (lit "inputSchema", t.input_schema)
    ∷ [])

unfoldable pub tools_list_result : List ToolDef → Value
tools_list_result tools = object ((lit "tools", array (map tool_row tools)) ∷ [])

abbrev pub response : Value → Str × Value → Value
response id row = object ((lit "jsonrpc", str (lit "2.0")) ∷ (lit "id", id) ∷ row ∷ [])

abbrev pub rpc_error : Str → Str → Str × Value
rpc_error code message =
    (lit "error", object ((lit "code", num code) ∷ (lit "message", str message) ∷ []))

abbrev pub method_of : Value → Str
method_of msg = or_else (get msg (lit "method") >>= as_str) []

abbrev pub params_of : Value → Value
params_of msg = or_else (get msg (lit "params")) null

module _ {ℓ} {H : Type ℓ} (sd : Serde) (handler : H → Str → Value → H × Result Str ToolOutput) where
  abbrev pub output : Result Str ToolOutput → Value
  output (ok (json v)) = content (sd.to_string v) false
  output (ok (raw v)) = v
  output (err msg) = error_content msg

  abbrev pub called : H × Result Str ToolOutput → H × Value
  called (h, answer) = (h, output answer)

  unfoldable pub tools_call_result : Value → List ToolDef → H → H × Value
  unfolding error_content
  tools_call_result params tools h = elim (get params (lit "name") >>= as_str) [
    | none ↦ (h, error_content (lit "missing required field: name"))
    | some name ↦
        if member name (names tools)
        then called (handler h name (or_else (get params (lit "arguments")) (obj end)))
        else (h, error_content (lit "unknown tool: " ++ name))
  ]

  abbrev pub some_result : H × Value → H × Option Value
  some_result (h, v) = (h, some v)

  -- The `match` on the method, with what the handler leaves behind.
  abbrev pub method_result : Str → Str → Value → List ToolDef → H → H × Option Value
  method_result version method params tools h =
      if method == lit "initialize"
      then (h, some (initialize_result version params))
      else if method == lit "ping"
      then (h, some (obj end))
      else if method == lit "tools/list"
      then (h, some (tools_list_result tools))
      else if method == lit "tools/call"
      then some_result (tools_call_result params tools h)
      else (h, none)

  abbrev pub respond : Value → H × Option Value → H × Option Value
  respond id (h, some result) = (h, some (response id (lit "result", result)))
  respond id (h, none) = (h, some (response id (rpc_error (lit "-32601") (lit "method not found"))))

  abbrev pub handle_parsed : Str → Value → List ToolDef → H → H × Option Value
  handle_parsed version msg tools h = elim (get msg (lit "id")) [
    | none ↦ (h, none)
    | some id ↦
        if starts_with (method_of msg) (lit "notifications/")
        then (h, none)
        else respond id (method_result version (method_of msg) (params_of msg) tools h)
  ]

  unfoldable pub handle_message : Str → Str → List ToolDef → H → H × Option Value
  unfolding tools_call_result initialize_result tools_list_result
  handle_message version message tools h = elim (sd.from_str message) [
    | none ↦ (h, some (response null (rpc_error (lit "-32700") (lit "parse error"))))
    | some msg ↦ handle_parsed version msg tools h
  ]
