-- ===== src/Cli/Tests.antt =====
-- A routed call of src/cli at a small server.
use figmog.Prelude.{ℕ, suc, ◌≡◌, refl, Option, none, some, List, [], ◌∷◌}
use figmog.Prelude.Tests.{◌==◌, if◌then◌else◌}
use figmog.Prelude.Text.{Str, lit, str_beq, str_eq}
use figmog.Json.{Value, null, str, object, obj, end, Serde}
use figmog.Api.{Result, ok}
use figmog.Proxy.{ToolDef}
use figmog.Mcp.{ToolOutput, json, handle_message}
use figmog.Cli.{call_frame, interpret_call_response, strip_nulls, with_current_file}
use figmog.Cli.Routed.{relayed, interpret-handle_message}

drops_nulls :
    strip_nulls (object ((lit "equals", null) ∷ (lit "pointer", str (lit "/x")) ∷ []))
    ≡ object ((lit "pointer", str (lit "/x")) ∷ [])
unfolding strip_nulls str_beq
drops_nulls = refl

names_the_current :
    with_current_file (some (lit "K")) (obj end) ≡ object ((lit "file", str (lit "K")) ∷ [])
unfolding with_current_file
names_the_current = refl

-- The frame prints as `call`, and a text as itself.
abbrev print : Value → Str
print (str s) = s
print _ = lit "call"

abbrev parse : Str → Option Value
parse s = if s == lit "call" then some (call_frame (lit "figmog_files") (obj end)) else some (str s)

abbrev serde : Serde
serde = record { to_string = print; from_str = parse; as_f64 = λ v. none; pointer = λ v p. none }

abbrev registry : List ToolDef
registry = record { name = lit "figmog_files"; description = []; input_schema = obj end } ∷ []

abbrev handler : ℕ → Str → Value → ℕ × Result Str ToolOutput
handler n name args = (suc n, ok (json (str (lit "none"))))

interpret-handle_message_example :
    (resp : Value) × (handle_message serde handler (lit "0.0.2") (lit "call") registry 4
      ≡ (5, some resp))
    × (interpret_call_response serde resp ≡ relayed serde handler (ok (json (str (lit "none")))))
unfolding str_beq
interpret-handle_message_example =
    interpret-handle_message serde handler (lit "0.0.2") (lit "figmog_files") (obj end) registry 4
      refl refl refl
