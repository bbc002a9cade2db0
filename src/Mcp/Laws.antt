-- ===== src/Mcp/Laws.antt =====
-- What `handle_message` of src/mcp.rs answers, and when it runs a handler.
use mathlib.Core.Path.{subst}
use figmog.Prelude.{
  ◌≡◌, ◌⊎◌, inl, inr, refl, sym, ap, ◌∙◌, true, false, Option, none, some, List, [], ◌∷◌, ◌++◌,
}
use figmog.Prelude.Tests.{◌==◌, Bool-cases, Option-cases, if◌then◌else◌}
use figmog.Prelude.Text.{Str, lit, str_beq, str_beq_iff, str_eq}
use figmog.Prelude.Members.{member}
use figmog.Json.{Value, null, str, obj, end, Serde, get, as_str, ◌>>=◌}
use figmog.Api.{Result}
use figmog.Flatten.Walk.{or_else}
use figmog.Proxy.{ToolDef, names, starts_with}
use figmog.Mcp.Calls.{Requests, Calls, call_or_none}
use figmog.Mcp.{
  ToolOutput, handle_message, handle_parsed, method_result, tools_call_result, respond, response,
  rpc_error, method_of, params_of, output, initialize_result, tools_list_result, called,
  some_result, error_content,
}

abbrev pub methods : List Str
methods = lit "initialize" ∷ lit "ping" ∷ lit "tools/list" ∷ lit "tools/call" ∷ []

-- The four answers that JSON-RPC has for a message.
pub data Reply (sd : Serde) (message : Str) : Option Value → Type 0 where
  unparsed :
      sd.from_str message ≡ none
      → Reply sd message (some (response null (rpc_error (lit "-32700") (lit "parse error"))))
  notification :
      (msg : Value)
      → sd.from_str message ≡ some msg
      → (get msg (lit "id") ≡ none) ⊎ (starts_with (method_of msg) (lit "notifications/") ≡ true)
      → Reply sd message none
  result :
      (msg id v : Value)
      → sd.from_str message ≡ some msg
      → Requests msg id
      → member (method_of msg) methods ≡ true
      → Reply sd message (some (response id (lit "result", v)))
  no_method :
      (msg id : Value)
      → sd.from_str message ≡ some msg
      → Requests msg id
      → member (method_of msg) methods ≡ false
      → Reply sd message (some (response id (rpc_error (lit "-32601") (lit "method not found"))))

module _ {ℓ} {H : Type ℓ} (sd : Serde) (handler : H → Str → Value → H × Result Str ToolOutput) where
  -- The handler was run once, on a tool of the registry that the call names.
  abbrev pub Ran : Value → List ToolDef → H → H → Type ℓ
  Ran msg tools h h' =
      (name : Str) × (get (params_of msg) (lit "name") >>= as_str ≡ some name)
      × (method_of msg ≡ lit "tools/call")
      × (member name (names tools) ≡ true)
      × (h' ≡ (handler h name (or_else (get (params_of msg) (lit "arguments")) (obj end))).0)

  abbrev Outcome : Str → Value → List ToolDef → H → H × Option Value → Type ℓ
  Outcome method msg tools h (h', r) =
      ((member method methods ≡ false) × (r ≡ none) × (h' ≡ h))
      ⊎ ((v : Value) × (member method methods ≡ true)
          × (r ≡ some v)
          × ((h' ≡ h) ⊎ Ran msg tools h h'))

  tools_call_result_unnamed :
      (params : Value) (tools : List ToolDef) (h : H)
      → get params (lit "name") >>= as_str ≡ none
      → tools_call_result sd handler params tools h
        ≡ (h, error_content (lit "missing required field: name"))
  unfolding tools_call_result
  tools_call_result_unnamed params tools h n = rw (n, tools_call_result) refl

  tools_call_result_named :
      (params : Value) (tools : List ToolDef) (h : H) (name : Str)
      → get params (lit "name") >>= as_str ≡ some name
      → tools_call_result sd handler params tools h ≡ (
          if member name (names tools)
          then called sd handler (handler h name (or_else (get params (lit "arguments")) (obj end)))
          else (h, error_content (lit "unknown tool: " ++ name)))
  unfolding tools_call_result
  tools_call_result_named params tools h name n = rw (n, tools_call_result) refl

  ran :
      (msg : Value) (tools : List ToolDef) (h : H)
      → method_of msg ≡ lit "tools/call"
      → ((tools_call_result sd handler (params_of msg) tools h).0 ≡ h)
        ⊎ Ran msg tools h (tools_call_result sd handler (params_of msg) tools h).0
  ran msg tools h e = elim (Option-cases (get (params_of msg) (lit "name") >>= as_str)) [
    | inl n ↦ inl (ap (λ r. r.0) (tools_call_result_unnamed (params_of msg) tools h n))
    | inr (name, n) ↦ elim (Bool-cases (member name (names tools))) [
      | inl m ↦
          inr (name, n, e, m, rw (tools_call_result_named (params_of msg) tools h name n, m) refl)
      | inr m ↦ inl (rw (tools_call_result_named (params_of msg) tools h name n, m) refl)
    ]
  ]

  called_method :
      (version : Str) (msg : Value) (tools : List ToolDef) (h : H)
      → (method_of msg == lit "initialize") ≡ false
      → (method_of msg == lit "ping") ≡ false
      → (method_of msg == lit "tools/list") ≡ false
      → (method_of msg == lit "tools/call") ≡ true
      → method_result sd handler version (method_of msg) (params_of msg) tools h
        ≡ some_result sd handler (tools_call_result sd handler (params_of msg) tools h)
  called_method version msg tools h a b c d = rw (a, b, c, d) refl

  outcome :
      (version : Str) (msg : Value) (tools : List ToolDef) (h : H)
      → Outcome
          (method_of msg)
          msg
          tools
          h
          (method_result sd handler version (method_of msg) (params_of msg) tools h)
  outcome version msg tools h = elim (Bool-cases (method_of msg == lit "initialize")) [
    | inl a ↦ rw a (inr (initialize_result version (params_of msg), refl, refl, inl refl))
    | inr a ↦ elim (Bool-cases (method_of msg == lit "ping")) [
      | inl b ↦ rw (a, b) (inr (obj end, refl, refl, inl refl))
      | inr b ↦ elim (Bool-cases (method_of msg == lit "tools/list")) [
        | inl c ↦ rw (a, b, c) (inr (tools_list_result tools, refl, refl, inl refl))
        | inr c ↦ elim (Bool-cases (method_of msg == lit "tools/call")) [
          | inl d ↦
              subst (Outcome (method_of msg) msg tools h)
                (sym (called_method version msg tools h a b c d))
                (inr (
                  (tools_call_result sd handler (params_of msg) tools h).1,
                  rw (a, b, c, d) refl,
                  refl,
                  ran msg tools h ((str_beq_iff (method_of msg) (lit "tools/call")).0 d),
                ))
          | inr d ↦ rw (a, b, c, d) (inl (refl, refl, refl))
        ]
      ]
    ]
  ]

  abbrev Handled : Str → List ToolDef → H → H × Option Value → Type ℓ
  Handled message tools h (h', r) =
      Reply sd message r
      × ((h' ≡ h)
          ⊎ ((msg : Value) × (id : Value) × (sd.from_str message ≡ some msg)
              × Requests msg id
              × Ran msg tools h h'))

  responded :
      (message : Str) (msg id : Value) (tools : List ToolDef) (h : H) (r : H × Option Value)
      → sd.from_str message ≡ some msg
      → Requests msg id
      → Outcome (method_of msg) msg tools h r
      → Handled message tools h (respond sd handler id r)
  responded message msg id tools h (h', none) p q (inl (m, e, k)) = (no_method msg id p q m, inl k)
  responded message msg id tools h (h', none) p q (inr (v, m, e, k)) = cc
  responded message msg id tools h (h', some v) p q (inl (m, e, k)) = cc
  responded message msg id tools h (h', some v) p q (inr (w, m, e, inl k)) =
      (result msg id v p q m, inl k)
  responded message msg id tools h (h', some v) p q (inr (w, m, e, inr k)) =
      (result msg id v p q m, inr (msg, id, p, q, k))

  handle_parsed_no_id :
      (version : Str) (msg : Value) (tools : List ToolDef) (h : H)
      → get msg (lit "id") ≡ none
      → handle_parsed sd handler version msg tools h ≡ (h, none)
  handle_parsed_no_id version msg tools h i = rw (i, handle_parsed) refl

  handle_parsed_id :
      (version : Str) (msg : Value) (tools : List ToolDef) (h : H) (id : Value)
      → get msg (lit "id") ≡ some id
      → handle_parsed sd handler version msg tools h ≡ (
          if starts_with (method_of msg) (lit "notifications/")
          then (h, none)
          else respond sd handler id
              (method_result sd handler version (method_of msg) (params_of msg) tools h))
  handle_parsed_id version msg tools h id i = rw (i, handle_parsed) refl

  parsed :
      (version message : Str) (msg : Value) (tools : List ToolDef) (h : H)
      → sd.from_str message ≡ some msg
      → Handled message tools h (handle_parsed sd handler version msg tools h)
  parsed version message msg tools h p = elim (Option-cases (get msg (lit "id"))) [
    | inl i ↦
        subst (Handled message tools h) (sym (handle_parsed_no_id version msg tools h i))
          (notification msg p (inl i), inl refl)
    | inr (id, i) ↦
        subst (Handled message tools h) (sym (handle_parsed_id version msg tools h id i))
          (elim (Bool-cases (starts_with (method_of msg) (lit "notifications/"))) [
            | inl n ↦ rw n (notification msg p (inr n), inl refl)
            | inr n ↦ subst (Handled message tools h) (sym (rw n refl)) (
                responded message msg id tools h
                  (method_result sd handler version (method_of msg) (params_of msg) tools h) p
                  (i, n) (outcome version msg tools h))
          ])
  ]

  handle_message_unparsed :
      (version message : Str) (tools : List ToolDef) (h : H)
      → sd.from_str message ≡ none
      → handle_message sd handler version message tools h
        ≡ (h, some (response null (rpc_error (lit "-32700") (lit "parse error"))))
  unfolding handle_message
  handle_message_unparsed version message tools h p = rw (p, handle_message) refl

  handle_message_parsed :
      (version message : Str) (tools : List ToolDef) (h : H) (msg : Value)
      → sd.from_str message ≡ some msg
      → handle_message sd handler version message tools h
        ≡ handle_parsed sd handler version msg tools h
  unfolding handle_message
  handle_message_parsed version message tools h msg p = rw (p, handle_message) refl

  handled :
      (version message : Str) (tools : List ToolDef) (h : H)
      → Handled message tools h (handle_message sd handler version message tools h)
  handled version message tools h = elim (Option-cases (sd.from_str message)) [
    | inl p ↦
        subst (Handled message tools h) (sym (handle_message_unparsed version message tools h p))
          (unparsed p, inl refl)
    | inr (msg, p) ↦
        subst (Handled message tools h) (sym (handle_message_parsed version message tools h msg p))
          (parsed version message msg tools h p)
  ]

  -- One run of the handler, and the response that carries its output
  abbrev pub answer_of : Value → H → Str → Value → H × Option Value
  answer_of id h name args = (
    (handler h name args).0,
    some (response id (lit "result", output sd handler (handler h name args).1)),
  )

  method_of_lem :
      (msg : Value) (m : Str) → get msg (lit "method") ≡ some (str m) → method_of msg ≡ m
  method_of_lem msg m t = rw t refl

  tools_call_answer :
      (version : Str) (params id : Value) (tools : List ToolDef) (h : H) (name : Str)
      → get params (lit "name") >>= as_str ≡ some name
      → member name (names tools) ≡ true
      → respond sd handler id (method_result sd handler version (lit "tools/call") params tools h)
        ≡ (
          (handler h name (or_else (get params (lit "arguments")) (obj end))).0,
          some (
              response id (
                lit "result",
                output sd handler
                    (handler h name (or_else (get params (lit "arguments")) (obj end))).1,
              )),
        )
  unfolding str_beq
  tools_call_answer version params id tools h name named k =
      ap (λ r. respond sd handler id (some_result sd handler r))
        (tools_call_result_named params tools h name named
          ∙ ap
              (λ b.
                if b
                then called sd handler
                    (handler h name (or_else (get params (lit "arguments")) (obj end)))
                else (h, error_content (lit "unknown tool: " ++ name)))
              k)

  handle_message_called :
      (version message : Str) (tools : List ToolDef) (h : H) (msg id : Value) (name : Str)
      → sd.from_str message ≡ some msg
      → get msg (lit "id") ≡ some id
      → method_of msg ≡ lit "tools/call"
      → get (params_of msg) (lit "name") >>= as_str ≡ some name
      → member name (names tools) ≡ true
      → handle_message sd handler version message tools h
        ≡ answer_of id h name (or_else (get (params_of msg) (lit "arguments")) (obj end))
  handle_message_called version message tools h msg id name p i t n k =
      handle_message_parsed version message tools h msg p
      ∙ handle_parsed_id version msg tools h id i
      ∙ ap
          (λ m.
            if starts_with m (lit "notifications/")
            then (h, none)
            else respond sd handler id (method_result sd handler version m (params_of msg) tools h))
          t
      ∙ tools_call_answer version (params_of msg) id tools h name n k

  -- A request that calls a tool of the registry is answered with what one run of the handler gives on
  -- the arguments, or on `{}` where there are none, and leaves the state of that run.
  pub handle_message-call :
      (version message : Str) (tools : List ToolDef) (h : H) (msg id : Value) (name : Str)
      → sd.from_str message ≡ some msg
      → get msg (lit "id") ≡ some id
      → get msg (lit "method") ≡ some (str (lit "tools/call"))
      → get (params_of msg) (lit "name") ≡ some (str name)
      → member name (names tools) ≡ true
      → handle_message sd handler version message tools h ≡ (
        (handler h name (or_else (get (params_of msg) (lit "arguments")) (obj end))).0,
        some (
            response id (
              lit "result",
              output sd handler
                  (handler h name (or_else (get (params_of msg) (lit "arguments")) (obj end))).1,
            )),
      )
  handle_message-call version message tools h msg id name p i t n k =
      handle_message_called version message tools h msg id name p i
        (method_of_lem msg (lit "tools/call") t) (rw n refl) k

  -- Every message gets the one of the four answers of JSON-RPC that is its own: none for a
  -- notification, and otherwise a response that carries the id of the request and either a result or
  -- an error. A `tools/call` request that names a tool of the registry is answered with the output of
  -- one run of the handler, on the arguments or on `{}`, and leaves the handler's state as that run
  -- does; every other message leaves the state as it is.
  pub handle_message_lem :
      (version message : Str) (tools : List ToolDef) (h : H)
      → Reply sd message (handle_message sd handler version message tools h).1
        × (((id : Value) × (name : Str) × (args : Value) × Calls sd message tools id name args
              × (handle_message sd handler version message tools h ≡ answer_of id h name args))
            ⊎ (((handle_message sd handler version message tools h).0 ≡ h)
                × ((id : Value) (name : Str) (args : Value)
                    → ¬ Calls sd message tools id name args)))
  handle_message_lem version message tools h =
      let (reply, left) = handled version message tools h in
      (
        reply,
        elim (call_or_none sd message tools) [
          | inl (id, name, args, (msg, p, ((i, n), t, m, k, e))) ↦ inl (
            id,
            name,
            args,
            (msg, p, ((i, n), t, m, k, e)),
            rw e (handle_message_called version message tools h msg id name p i t m k),
          )
          | inr never ↦ inr (
            elim left [
              | inl same ↦ same
              | inr (msg, id, p, q, (name, m, t, k, _)) ↦ absurd (
                  never id name (or_else (get (params_of msg) (lit "arguments")) (obj end))
                    (msg, p, (q, t, m, k, refl)))
            ],
            never,
          )
        ],
      )
