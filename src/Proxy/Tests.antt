-- ===== src/Proxy/Tests.antt =====
-- The rules of src/proxy.rs at a few calls, and its properties at one.
use figmog.Prelude.{◌≡◌, refl, true, false, none, some, List, [], ◌∷◌}
use figmog.Prelude.Tests.{◌==◌, if◌then◌else◌}
use figmog.Prelude.Text.{Str, lit, str_beq, str_eq}
use figmog.Json.{Value, null, str, num, object, end, obj}
use figmog.Api.{ok}
use figmog.Cache.{lookup}
use figmog.Flatten.Tests.{serde}
use figmog.Store.Memory.{memory}
use figmog.Proxy.{ToolDef, is_cacheable, merge_registry, proxy_call}
use figmog.Proxy.Registry.{Merged, merge_registry_lem}
use figmog.Proxy.Calls.{Kept, Polls, proxy_call_lem, lookup-proxy_call}

abbrev args : Value
args = object ((lit "nodeId", str (lit "1:2")) ∷ [])

cacheable : is_cacheable (lit "get_code") args ≡ true
unfolding is_cacheable str_beq
cacheable = refl

needs_a_string : is_cacheable (lit "get_code") (object ((lit "nodeId", num (lit "1")) ∷ [])) ≡ false
unfolding is_cacheable str_beq
needs_a_string = refl

abbrev tool : Str → Value
tool name = object ((lit "name", str name) ∷ [])

abbrev local : List ToolDef
local = record { name = lit "figmog_tree"; description = []; input_schema = obj end } ∷ []

abbrev upstream : List Value
upstream = tool (lit "get_code") ∷ tool (lit "figmog_x") ∷ tool (lit "get_code") ∷ null ∷ []

drops_repeats : (merge_registry local upstream).1 ≡ lit "figmog_x" ∷ lit "get_code" ∷ []
unfolding merge_registry str_beq
drops_repeats = refl

merge_registry_lem_example :
    Merged local [] upstream (merge_registry local upstream).0 (merge_registry local upstream).1
merge_registry_lem_example = merge_registry_lem local upstream

abbrev result : Value
result = str (lit "hi")

proxy_call_lem_example :
    Kept serde memory []
      (ok result)
      (lit "get_code")
      args
      (some (lit "100"), none)
      (proxy_call serde memory [] (ok result) (lit "get_code") args (some (lit "100"), none)).0
    × Polls serde memory
        (ok result)
        (lit "get_code")
        none
        (proxy_call serde memory [] (ok result) (lit "get_code") args (some (lit "100"), none)).1
    × ((h : Value)
        → none ≡ some h
        → (proxy_call serde memory [] (ok result) (lit "get_code") args (some (lit "100"), none)).1
          ≡ ok (h, false))
proxy_call_lem_example =
    proxy_call_lem serde memory [] (ok result) (lit "get_code") args (some (lit "100")) none

lookup-proxy_call_example :
    lookup serde memory
      (proxy_call serde memory [] (ok result) (lit "get_code") args (some (lit "100"), none)).0
      (lit "get_code")
      (serde.to_string args)
      (lit "101")
    ≡ (if lit "100" == lit "101" then some result else none)
lookup-proxy_call_example =
    lookup-proxy_call serde memory [] result (lit "get_code") args (lit "100") (lit "101") cacheable
      refl refl
