-- ===== src/Proxy/Calls.antt =====
-- What a proxied call answers and caches.
use mathlib.Core.Path.{subst}
use figmog.Prelude.{◌≡◌, ◌⊎◌, inl, inr, refl, sym, ap, Bool, true, false, not, Option, none, some}
use figmog.Prelude.Tests.{◌==◌, Bool-cases, if◌then◌else◌}
use figmog.Prelude.Text.{Str, lit, str_eq}
use figmog.Json.{Value, Serde, get}
use figmog.Api.{Result, ok, err}
use figmog.Store.Stream.{KeyedStream}
use figmog.Cache.{lookup, store}
use figmog.Cache.Laws.{lookup-store_self}
use figmog.Proxy.{proxy_call, cache_response, is_cacheable, is_true, tool_name_cache_capable}

module _ (sd : Serde) (fold : KeyedStream) where
  open fold use {State}

  -- A call leaves the store as it was, or it is one that the upstream answered without an error, a
  -- cacheable one, and its answer is stored under the version that is known.
  abbrev pub Kept :
      State → Result Str Value → Str → Value → Option Str × Option Value → State → Type 0
  Kept st called name args (version, hit) st' =
      (st' ≡ st)
      ⊎ ((v : Str) × (result : Value) × (hit ≡ none)
          × (version ≡ some v)
          × (called ≡ ok result)
          × (is_cacheable name args ≡ true)
          × (is_true (get result (lit "isError")) ≡ false)
          × (st' ≡ store sd fold st name (sd.to_string args) v result))

  -- A poll is asked for only after an answered call of a tool that is not one to read with.
  abbrev pub Polls : Result Str Value → Str → Option Value → Result Str (Value × Bool) → Type 0
  Polls called name hit answer =
      (result : Value)
      → answer ≡ ok (result, true)
      → (hit ≡ none) × (called ≡ ok result) × (tool_name_cache_capable name ≡ false)

  abbrev Whole :
      State
      → Result Str Value
      → Str
      → Value
      → Option Str
      → Option Value
      → State × Result Str (Value × Bool)
      → Type 0
  Whole st called name args version hit (st', answer) =
      Kept st called name args (version, hit) st'
      × Polls called name hit answer
      × ((h : Value) → hit ≡ some h → answer ≡ ok (h, false))

  Kept-response :
      (st : State) (name : Str) (args : Value) (version : Option Str) (result : Value)
      → is_cacheable name args ≡ true
      → Kept st
          (ok result)
          name
          args
          (version, none)
          (cache_response sd fold st name args version result)
  Kept-response st name args none result c = inl refl
  Kept-response st name args (some v) result c =
      elim (Bool-cases (is_true (get result (lit "isError")))) [
        | inl e ↦
            inl (ap (λ b. if b then st else store sd fold st name (sd.to_string args) v result) e)
        | inr e ↦ inr (
          v,
          result,
          refl,
          refl,
          refl,
          c,
          e,
          ap (λ b. if b then st else store sd fold st name (sd.to_string args) v result) e,
        )
      ]

  -- A hit is answered as it is. Nothing is stored but the answer of a cacheable call that is not an
  -- error, and a poll is asked for only after an answered call of a tool that is not one to read with.
  pub proxy_call_lem :
      (st : State) (called : Result Str Value) (name : Str) (args : Value) (version : Option Str)
      (hit : Option Value)
      → Kept st called name args
          (version, hit)
          (proxy_call sd fold st called name args (version, hit)).0
        × Polls called name hit (proxy_call sd fold st called name args (version, hit)).1
        × ((h : Value)
            → hit ≡ some h
            → (proxy_call sd fold st called name args (version, hit)).1 ≡ ok (h, false))
  unfolding proxy_call
  proxy_call_lem st called name args version (some h) = (inl refl, (λ r e. cc), λ k e. cc)
  proxy_call_lem st (err e) name args version none = (inl refl, (λ r e. cc), λ k e. cc)
  proxy_call_lem st (ok result) name args version none =
      let cached : State × Result Str (Value × Bool) =
        (cache_response sd fold st name args version result, ok (result, false)) in
      let passed : State × Result Str (Value × Bool) =
        (st, ok (result, not (tool_name_cache_capable name))) in
      elim (Bool-cases (is_cacheable name args)) [
        | inl c ↦
            subst (Whole st (ok result) name args version none)
              (sym (ap (λ b. if b then cached else passed) c))
              (Kept-response st name args version result c, (λ r e. cc), λ k e. cc)
        | inr c ↦
            subst (Whole st (ok result) name args version none)
              (sym (ap (λ b. if b then cached else passed) c)) (inl refl, polled result, λ k e. cc)
      ]
    where
      polled :
          (result : Value)
          → Polls (ok result) name none (ok (result, not (tool_name_cache_capable name)))
      polled result r e = elim (Bool-cases (tool_name_cache_capable name)) [
        | inl t ↦ let bad : ok (result, false) ≡ ok (r, true) = rw t at e in cc
        | inr t ↦ let same : ok (result, true) ≡ ok (r, true) = rw t at e in (refl, cc, t)
      ]

  -- The answer of a cacheable call that is not an error, and that survives printing and parsing, is
  -- found by the next lookup of the call at that version, and by none at another.
  pub lookup-proxy_call :
      (st : State) (result : Value) (name : Str) (args : Value) (version current : Str)
      → is_cacheable name args ≡ true
      → is_true (get result (lit "isError")) ≡ false
      → sd.from_str (sd.to_string result) ≡ some result
      → lookup sd fold
          (proxy_call sd fold st (ok result) name args (some version, none)).0
          name
          (sd.to_string args)
          current
        ≡ (if version == current then some result else none)
  unfolding proxy_call
  lookup-proxy_call st result name args version current c e h =
      rw (c, proxy_call)
        (rw e (lookup-store_self sd fold st name (sd.to_string args) version result current h))
