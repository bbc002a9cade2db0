-- ===== src/Proxy.antt =====
-- src/proxy.rs: which tool calls are proxied and cached, and the registry of tools.
pub mod Registry
pub mod Calls
mod Tests
use figmog.Prelude.{
  ℕ, Bool, true, false, not, ◌&&◌, ◌||◌, Option, none, some, List, [], ◌∷◌, ◌++◌, map,
}
use figmog.Prelude.Tests.{if◌then◌else◌}
use figmog.Prelude.Text.{Str, lit, str_eq, strip_prefix}
use figmog.Prelude.Members.{member}
use figmog.Json.{Value, null, bool, num, str, arr, obj, Serde, get, as_str, object, ◌>>=◌}
use figmog.Api.{Result, ok, err}
use figmog.Flatten.Walk.{or_else}
use figmog.Store.Stream.{KeyedStream}
use figmog.Cache.{store}

abbrev pub starts_with : Str → Str → Bool
starts_with s prefix = elim (strip_prefix prefix s) [ none ↦ false | some _ ↦ true ]

unfoldable pub is_local_tool : Str → Bool
is_local_tool name = starts_with name (lit "figmog_")

unfoldable pub tool_name_cache_capable : Str → Bool
tool_name_cache_capable name = starts_with name (lit "get_") || starts_with name (lit "list_")

-- `matches!(.., Some(Value::String(_)))`
abbrev pub is_string : Option Value → Bool
is_string (some (str _)) = true
is_string _ = false

unfoldable pub has_explicit_node_id : Value → Bool
has_explicit_node_id args =
    is_string (get args (lit "nodeId"))
    || is_string (get args (lit "node_id"))
    || is_string (get args (lit "id"))

unfoldable pub is_cacheable : Str → Value → Bool
unfolding tool_name_cache_capable has_explicit_node_id
is_cacheable name args = tool_name_cache_capable name && has_explicit_node_id args

pub record ToolDef : Type 0 where
  pub name : Str
  pub description : Str
  pub input_schema : Value

abbrev pub names : List ToolDef → List Str
names [] = []
names (t ∷ ts) = t.name ∷ names ts

-- An upstream tool under the name that it gives.
abbrev pub upstream_tool : Str → Value → ToolDef
upstream_tool name tool = record {
  name = name;
  description = lit "[via Figma desktop] " ++ or_else (get tool (lit "description") >>= as_str) [];
  input_schema =
      or_else (get tool (lit "inputSchema")) (object ((lit "type", str (lit "object")) ∷ []));
}

-- The loop over the upstream tools: the names seen are `names local` throughout.
unfoldable pub merge : List ToolDef → List Str → List Value → List ToolDef × List Str
unfolding is_local_tool
merge local dropped [] = (local, dropped)
merge local dropped (tool ∷ tools) = elim (get tool (lit "name") >>= as_str) [
  | none ↦ merge local dropped tools
  | some name ↦ elim (is_local_tool name || member name (names local)) [
    | true ↦ merge local (dropped ++ (name ∷ [])) tools
    | false ↦ merge (local ++ (upstream_tool name tool ∷ [])) dropped tools
  ]
]

unfoldable pub merge_registry : List ToolDef → List Value → List ToolDef × List Str
unfolding merge
merge_registry local upstream_tools = merge local [] upstream_tools

-- `result.get("isError") == Some(&Value::Bool(true))`
abbrev pub is_true : Option Value → Bool
is_true (some (bool b)) = b
is_true _ = false

module _ (sd : Serde) (fold : KeyedStream) where
  open fold use {State}

  abbrev pub cache_response : State → Str → Value → Option Str → Value → State
  cache_response st name args none result = st
  cache_response st name args (some version) result =
      if is_true (get result (lit "isError"))
      then st
      else store sd fold st name (sd.to_string args) version result

  -- `called` is what the upstream answers, which is asked only where there is no hit.
  unfoldable pub proxy_call :
      State
      → Result Str Value
      → Str
      → Value
      → Option Str × Option Value
      → State × Result Str (Value × Bool)
  unfolding is_cacheable tool_name_cache_capable store
  proxy_call st called name args (version, some hit) = (st, ok (hit, false))
  proxy_call st (err e) name args (version, none) = (st, err e)
  proxy_call st (ok result) name args (version, none) =
      if is_cacheable name args
      then (cache_response st name args version result, ok (result, false))
      else (st, ok (result, not (tool_name_cache_capable name)))
