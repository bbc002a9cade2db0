-- ===== src/Cli.antt =====
-- src/cli: the client's side of a call that is routed to a running server, in cli/socket.rs and
-- cli/mod.rs.
pub mod Routed
mod Tests
use figmog.Prelude.{Bool, true, false, not, ◌&&◌, Option, none, some, List, [], ◌∷◌, ◌++◌}
use figmog.Prelude.Tests.{if◌then◌else◌}
use figmog.Prelude.Text.{Str, lit}
use figmog.Json.{
  Value, Items, Fields, null, bool, num, str, arr, obj, nil, cons, end, field, Serde, get, as_str,
  as_bool, object, insert, remove, ◌>>=◌,
}
use figmog.Api.{Result, ok, err}
use figmog.Flatten.Walk.{or_else}

-- The frame of `call_over`
abbrev pub call_frame : Str → Value → Value
call_frame tool args = object (
    (lit "jsonrpc", str (lit "2.0"))
    ∷ (lit "id", num (lit "1"))
    ∷ (lit "method", str (lit "tools/call"))
    ∷ (lit "params", object ((lit "name", str tool) ∷ (lit "arguments", args) ∷ []))
    ∷ [])

unfoldable pub protocol_error_message : Value → Str
protocol_error_message e = or_else (get e (lit "message") >>= as_str) (lit "unknown error")

-- `v[0]`
abbrev pub first : Value → Value
first (arr (cons v vs)) = v
first _ = null

-- `result["content"][0]["text"].as_str()`
abbrev pub first_text : Value → Option Str
first_text result = get (first (or_else (get result (lit "content")) null)) (lit "text") >>= as_str

unfoldable pub interpret_result : Serde → Value → Result Str Value
interpret_result sd result =
    if or_else (get result (lit "isError") >>= as_bool) false
    then err (or_else (first_text result) (lit "unknown error from serve"))
    else elim (first_text result) [
      | none ↦ ok result
      | some t ↦ elim (sd.from_str t) [
        | some v ↦ ok v
        | none ↦ err (lit "serve returned non-JSON tool content")
      ]
    ]

-- The text of serde_json's error is left out of the message.
unfoldable pub interpret_call_response : Serde → Value → Result Str Value
unfolding protocol_error_message interpret_result
interpret_call_response sd resp = elim (get resp (lit "error")) [
  | some e ↦ err (protocol_error_message e)
  | none ↦ interpret_result sd (or_else (get resp (lit "result")) null)
]

-- `obj.retain(|_, v| !v.is_null())`
abbrev pub kept_field : Str → Value → Fields → Fields
kept_field k null fs = fs
kept_field k v fs = field k v fs

abbrev pub retained : Fields → Fields
retained end = end
retained (field k v fs) = kept_field k v (retained fs)

unfoldable pub strip_nulls : Value → Value
strip_nulls (obj fs) = obj (retained fs)
strip_nulls v = v

unfoldable pub strip_routed_upstream_field : Value → Value
strip_routed_upstream_field (obj fs) = obj (remove (lit "upstream") fs)
strip_routed_upstream_field v = v

abbrev pub is_set : Option Value → Bool
is_set none = false
is_set (some null) = false
is_set (some _) = true

-- `current` is what `read_current_key` gives.
unfoldable pub with_current_file : Option Str → Value → Value
with_current_file (some key) (obj fs) =
    if is_set (get (obj fs) (lit "file")) then obj fs else obj (insert (lit "file") (str key) fs)
with_current_file _ v = v
