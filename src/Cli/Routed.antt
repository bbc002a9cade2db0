-- ===== src/Cli/Routed.antt =====
-- A call over the socket: the frame of cli/socket.rs, its answer by `handle_message` of src/mcp.rs, and
-- what the client makes of it.
use figmog.Prelude.{◌≡◌, refl, true, some, List}
use figmog.Prelude.Text.{Str, lit, str_beq, str_eq}
use figmog.Prelude.Members.{member}
use figmog.Json.{Value, num, Serde}
use figmog.Api.{Result, ok, err}
use figmog.Proxy.{ToolDef, names}
use figmog.Mcp.{ToolOutput, json, raw, handle_message, response, output, error_content}
use figmog.Mcp.Laws.{handle_message-call}
use figmog.Cli.{call_frame, interpret_call_response, interpret_result}

module _ {ℓ} {H : Type ℓ} (sd : Serde) (handler : H → Str → Value → H × Result Str ToolOutput) where
  -- The client's view of what the handler answers: its value, its error, or a result passed through.
  abbrev pub relayed : Result Str ToolOutput → Result Str Value
  relayed (ok (json v)) = ok v
  relayed (ok (raw v)) = interpret_result sd v
  relayed (err msg) = err msg

  -- What the handler answers as JSON prints and parses again.
  abbrev pub Reads : Result Str ToolOutput → Type 0
  Reads (ok (json v)) = sd.from_str (sd.to_string v) ≡ some v
  Reads _ = Unit

  interpret-response :
      (id : Value) (r : Result Str ToolOutput)
      → Reads r
      → interpret_call_response sd (response id (lit "result", output sd handler r)) ≡ relayed r
  unfolding interpret_call_response error_content str_beq
  interpret-response id (ok (json v)) h = rw h refl
  interpret-response id (ok (raw v)) h = refl
  interpret-response id (err msg) h = refl

  -- A call of a registered tool over the socket gives the client what one run of the handler on the
  -- arguments answers: the value where that is JSON, and the error where it is one. The server is left
  -- in the state of that run. The frame and the JSON are to survive printing and parsing.
  pub interpret-handle_message :
      (version tool : Str) (args : Value) (tools : List ToolDef) (h : H)
      → sd.from_str (sd.to_string (call_frame tool args)) ≡ some (call_frame tool args)
      → member tool (names tools) ≡ true
      → Reads (handler h tool args).1
      → (resp : Value) × (handle_message sd handler version
            (sd.to_string (call_frame tool args))
            tools
            h
          ≡ ((handler h tool args).0, some resp))
        × (interpret_call_response sd resp ≡ relayed (handler h tool args).1)
  unfolding str_beq
  interpret-handle_message version tool args tools h p k reads = (
    response (num (lit "1")) (lit "result", output sd handler (handler h tool args).1),
    handle_message-call sd handler version (sd.to_string (call_frame tool args)) tools h
        (call_frame tool args) (num (lit "1")) tool p refl refl refl k,
    interpret-response (num (lit "1")) (handler h tool args).1 reads,
  )
