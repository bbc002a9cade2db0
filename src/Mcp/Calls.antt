-- ===== src/Mcp/Calls.antt =====
-- Which messages of src/mcp.rs call a tool of the registry.
use mathlib.Core.Path.{subst}
use mathlib.Core.Option.{some-injective}
use figmog.Prelude.{◌≡◌, ◌⊎◌, inl, inr, refl, sym, ap, ◌∙◌, true, false, some, List}
use figmog.Prelude.Tests.{◌==◌, Bool-cases, Option-cases}
use figmog.Prelude.Text.{Str, lit, str_beq_iff, str_eq}
use figmog.Prelude.Members.{member}
use figmog.Json.{Value, obj, end, Serde, get, as_str, ◌>>=◌}
use figmog.Flatten.Walk.{or_else}
use figmog.Proxy.{ToolDef, names, starts_with}
use figmog.Mcp.{method_of, params_of}

-- The message is a request of the id: it has one, and its method is no notification.
abbrev pub Requests : Value → Value → Type 0
Requests msg id =
    (get msg (lit "id") ≡ some id) × (starts_with (method_of msg) (lit "notifications/") ≡ false)

-- The request of the id that calls the tool of the registry with the arguments
abbrev pub CallsAt : List ToolDef → Value → Value → Str → Value → Type 0
CallsAt tools msg id name args =
    Requests msg id
    × (method_of msg ≡ lit "tools/call")
    × (get (params_of msg) (lit "name") >>= as_str ≡ some name)
    × (member name (names tools) ≡ true)
    × (args ≡ or_else (get (params_of msg) (lit "arguments")) (obj end))

at_or_not :
    (tools : List ToolDef) (msg : Value)
    → ((id : Value) × (name : Str) × (args : Value) × CallsAt tools msg id name args)
      ⊎ ((id : Value) (name : Str) (args : Value) → ¬ CallsAt tools msg id name args)
at_or_not tools msg = elim (Option-cases (get msg (lit "id"))) [
  | inl i ↦ inr (λ id name args ((i', n'), _, _, _, _). cc)
  | inr (id, i) ↦ elim (Bool-cases (starts_with (method_of msg) (lit "notifications/"))) [
    | inl n ↦ inr (λ id name args ((i', n'), _, _, _, _). let bad : true ≡ false = sym n ∙ n' in cc)
    | inr n ↦ elim (Bool-cases (method_of msg == lit "tools/call")) [
      | inr t ↦ inr (λ id name args (_, t', _, _, _).
          let bad : true ≡ false =
            sym ((str_beq_iff (method_of msg) (lit "tools/call")).1 t') ∙ t in
          cc)
      | inl t ↦ elim (Option-cases (get (params_of msg) (lit "name") >>= as_str)) [
        | inl m ↦ inr (λ id name args (_, _, m', _, _). cc)
        | inr (name, m) ↦ elim (Bool-cases (member name (names tools))) [
          | inl k ↦ inl (
            id,
            name,
            or_else (get (params_of msg) (lit "arguments")) (obj end),
            ((i, n), (str_beq_iff (method_of msg) (lit "tools/call")).0 t, m, k, refl),
          )
          | inr k ↦ inr (λ id name' args (_, _, m', k', _).
              let same : name ≡ name' = some-injective name name' (sym m ∙ m') in
              let bad : true ≡ false = sym k' ∙ ap (λ z. member z (names tools)) (sym same) ∙ k in
              cc)
        ]
      ]
    ]
  ]
]

module _ (sd : Serde) where
  abbrev pub Calls : Str → List ToolDef → Value → Str → Value → Type 0
  Calls message tools id name args =
      (msg : Value) × (sd.from_str message ≡ some msg) × CallsAt tools msg id name args

  abbrev Called : Str → List ToolDef → Type 0
  Called message tools =
      (id : Value) × (name : Str) × (args : Value) × Calls message tools id name args

  -- Whether the message is such a call is decided.
  pub call_or_none :
      (message : Str) (tools : List ToolDef)
      → Called message tools
        ⊎ ((id : Value) (name : Str) (args : Value) → ¬ Calls message tools id name args)
  call_or_none message tools = elim (Option-cases (sd.from_str message)) [
    | inl p ↦ inr (λ id name args (msg, p', _). cc)
    | inr (msg, p) ↦ elim (at_or_not tools msg) [
      | inl (id, name, args, c) ↦ inl (id, name, args, (msg, p, c))
      | inr never ↦ inr (λ id name args (msg', p', c).
          never id name args
            (subst (λ z. CallsAt tools z id name args) (some-injective msg' msg (sym p' ∙ p)) c))
    ]
  ]
