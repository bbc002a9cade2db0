-- ===== src/Upstream.antt =====
-- src/upstream.rs: the client of the upstream MCP server, and the parse of its answers.
pub mod Client
pub mod Laws
mod Tests
use figmog.Prelude.{
  ℕ, ◌+◌, Bool, true, false, ◌&&◌, ◌||◌, Option, none, some, List, [], ◌∷◌, ◌++◌, map,
}
use figmog.Prelude.Tests.{◌==◌, leb, nat_eq, if◌then◌else◌}
use figmog.Prelude.Text.{
  Str, lit, str_eq, strip_prefix, split, decimal, push_first, lines, join, trim, to_ascii_lowercase,
}
use figmog.Json.{Value, str, num, obj, end, Serde, get, as_str, as_array, object, ◌>>=◌}
use figmog.Api.{Result, ok, err}
use figmog.Flatten.Walk.{or_else}

pub data UpstreamError : Type 0 where
  unreachable : Str → UpstreamError
  protocol : Str → UpstreamError

abbrev pub declared_version : Str
declared_version = lit "2025-06-18"

-- The agent and its URL are the transport, an argument of the operations.
pub record HttpUpstream : Type 0 where
  pub session_id : Option Str
  pub protocol_version : Option Str
  pub next_id : ℕ
  pub tools : List Value

abbrev pub new : HttpUpstream
new = record { session_id = none; protocol_version = none; next_id = 1; tools = [] }

unfoldable pub extract_result : Value → Result UpstreamError Value
extract_result resp = elim (get resp (lit "error")) [
  | some e ↦
      err (protocol (or_else (get e (lit "message") >>= as_str) (lit "upstream returned an error")))
  | none ↦ elim (get resp (lit "result")) [
    | some v ↦ ok v
    | none ↦ err (protocol (lit "response has neither `result` nor `error`"))
  ]
]

-- `body.replace("\r\n", "\n")`
unfoldable pub normalize : Str → Str
normalize [] = []
normalize (c ∷ s) = return_before c (normalize s) (starts_line s)
  where
    return_before : ℕ → Str → Bool → Str
    return_before c s b = if c == 13 && b then s else c ∷ s

    starts_line : Str → Bool
    starts_line [] = false
    starts_line (c ∷ s) = c == 10

-- `s.split("\n\n")`
unfoldable pub split_blank : Str → List Str
split_blank [] = [] ∷ []
split_blank (c ∷ []) = (c ∷ []) ∷ []
split_blank (c ∷ d ∷ s) = elim (c == 10 && d == 10) [
  | true ↦ [] ∷ split_blank s
  | false ↦ push_first c (split_blank (d ∷ s))
]

abbrev pub data_line : Str → Option Str
data_line line = elim (strip_prefix (lit "data:") line) [
  | none ↦ none
  | some rest ↦ some (or_else (strip_prefix (lit " ") rest) rest)
]

unfoldable pub data_lines : List Str → List Str
data_lines [] = []
data_lines (line ∷ rest) = elim (data_line line) [
  | none ↦ data_lines rest
  | some d ↦ d ∷ data_lines rest
]

-- The declared version of this program, `env!("CARGO_PKG_VERSION")`, is an argument.
abbrev pub init_request : Str → ℕ → Value
init_request version id = object (
    (lit "jsonrpc", str (lit "2.0"))
    ∷ (lit "id", num (decimal id))
    ∷ (lit "method", str (lit "initialize"))
    ∷ (
      lit "params",
      object (
          (lit "protocolVersion", str declared_version)
          ∷ (lit "capabilities", obj end)
          ∷ (
            lit "clientInfo",
            object ((lit "name", str (lit "figmog")) ∷ (lit "version", str version) ∷ []),
          )
          ∷ []),
    )
    ∷ [])

abbrev pub initialized_note : Value
initialized_note =
    object (
      (lit "jsonrpc", str (lit "2.0")) ∷ (lit "method", str (lit "notifications/initialized")) ∷ [])

abbrev pub list_request : ℕ → Value
list_request id = object (
    (lit "jsonrpc", str (lit "2.0"))
    ∷ (lit "id", num (decimal id))
    ∷ (lit "method", str (lit "tools/list"))
    ∷ [])

abbrev pub call_request : ℕ → Str → Value → Value
call_request id name args = object (
    (lit "jsonrpc", str (lit "2.0"))
    ∷ (lit "id", num (decimal id))
    ∷ (lit "method", str (lit "tools/call"))
    ∷ (lit "params", object ((lit "name", str name) ∷ (lit "arguments", args) ∷ []))
    ∷ [])

-- What `send_json` gives: no answer, or the `Mcp-Session-Id`, the content type, and the body or why it
-- could not be read.
pub data Posted : Type 0 where
  transport : Str → Posted
  answered : Option Str → Str → Result Str Str → Posted

abbrev pub kept_session : Option Str → Option Str → Option Str
kept_session none old = old
kept_session (some s) old = some s

abbrev pub body_of : Str → Result Str Str → Result UpstreamError (Str × Str)
body_of content_type (ok text) = ok (content_type, text)
body_of content_type (err e) = err (protocol (lit "failed to read response body: " ++ e))

module _ (sd : Serde) where
  abbrev pub event_value : Str → Option Value
  event_value event = elim (data_lines (lines event)) [
    | [] ↦ none
    | ◌∷◌ d ds ↦ sd.from_str (join (10 ∷ []) (d ∷ ds))
  ]

  -- The loop over the events, with the last value so far.
  unfoldable pub last_event : Option Value → List Str → Option Value
  unfolding data_lines
  last_event last [] = last
  last_event last (event ∷ events) = elim (event_value event) [
    | none ↦ last_event last events
    | some v ↦ last_event (some v) events
  ]

  unfoldable pub parse_sse_last_event : Str → Result UpstreamError Value
  unfolding last_event normalize split_blank
  parse_sse_last_event body = elim (last_event none (split_blank (normalize body))) [
    | some v ↦ ok v
    | none ↦ err (protocol (lit "no JSON-RPC event found in SSE stream"))
  ]

  abbrev pub media_type : Str → Str
  media_type content_type = elim (split b';' content_type) [
    | [] ↦ []
    | ◌∷◌ t rest ↦ to_ascii_lowercase (trim t)
  ]

  -- The text of serde_json's error is left out of the message.
  unfoldable pub parse_streamable_body : Str → Str → Result UpstreamError Value
  unfolding parse_sse_last_event
  parse_streamable_body content_type body =
      let ct = media_type content_type in
      if ct == lit "application/json"
      then elim (sd.from_str body) [
        | some v ↦ ok v
        | none ↦ err (protocol (lit "invalid JSON body"))
      ]
      else if ct == lit "text/event-stream"
      then parse_sse_last_event body
      else err (protocol (lit "unexpected content-type: " ++ ct))
