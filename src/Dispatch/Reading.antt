-- ===== src/Dispatch/Reading.antt =====
-- `dispatch_read_tool` of src/dispatch.rs: the tools that read the mirror.
pub mod Answering
use figmog.Prelude.{ℕ, Bool, Option, none, some, List}
use figmog.Prelude.Tests.{◌==◌, if◌then◌else◌}
use figmog.Prelude.Text.{Str, lit, str_eq}
use figmog.Json.{Value, null, num, str, Serde, get, as_str, as_array, ◌>>=◌ as ◌>>=?◌}
use figmog.Api.{Result, ok, err, ◌>>=◌}
use figmog.Api.Requests.{parse_u64}
use figmog.Flatten.Walk.{or_else}
use figmog.Store.Stream.{filter_map}
use figmog.Dispatch.{arg_str, arg_bool, require_str, require_f64}
use figmog.Query.Readers.{Readers}
use figmog.Query.Ancestors.{path}
use figmog.Query.Bindings.{status}
use figmog.Query.Inventory.{components, styles, vars}
use figmog.Query.Points.{Doubles, at}
use figmog.Query.Search.{Ranked, search}
use figmog.Query.Select.{pages, find, text, uses, instances}
use figmog.Query.Stats.{stats}
use figmog.Query.Tree.{with_field, tree, node, subtree}
use figmog.Query.Where.{where_}

abbrev as_u64 : Value → Option ℕ
as_u64 (num s) = parse_u64 s
as_u64 _ = none

abbrev pub arg_usize : Value → Str → Option ℕ
arg_usize args key = get args key >>=? as_u64

-- `filter(|v| !v.is_null())`
abbrev not_null : Value → Option Value
not_null null = none
not_null v = some v

-- An answer of a query, where the fuel of the query may not be enough
abbrev pub Answer : Type 0
Answer = Option (Result Str Value)

-- A required argument, which a missing one ends.
abbrev pub with_required : {A : Type 0} → Result Str A → (A → Answer) → Answer
with_required (err e) f = some (err e)
with_required (ok a) f = f a

abbrev pub fields_arg : Value → Option (List Str)
fields_arg args = get args (lit "fields") >>=? as_array >>=? λ a. some (filter_map as_str a)

-- The ranking of the text index, the uppercase of texts, the equality and the parse errors of JSON
-- values, and the doubles are as in the queries.
pub record Libraries : Type 0 where
  pub serde : Serde
  pub ranked : Str → ℕ → List Ranked
  pub to_uppercase : Str → Str
  pub same : Value → Value → Bool
  pub parse_error : Str → Str
  pub doubles : Doubles

module _ (l : Libraries) (r : Readers) (fuel : ℕ) (upstream_status : Str) where
  abbrev read_status : Answer
  read_status = some (status r >>= λ v. ok (with_field (lit "upstream") (str upstream_status) v))

  abbrev pub read_subtree : Value → Answer
  read_subtree args = with_required (require_str args (lit "id")) (λ id.
      subtree l.serde l.parse_error r fuel id (arg_usize args (lit "depth")) (fields_arg args)
        (arg_bool args (lit "resolve_vars")))

  abbrev read_where : Value → Answer
  read_where args = some (do
    pointer ← require_str args (lit "pointer")
    where_ l.serde l.same l.parse_error r pointer (get args (lit "equals") >>=? not_null)
        (arg_str args (lit "page")) (arg_str args (lit "under")))

  -- The tools that select nodes
  abbrev select_tool : Str → Value → Option Answer
  select_tool name args =
      if name == lit "figmog_find"
      then some (
          some (do
            node_type ← require_str args (lit "type")
            find l.to_uppercase r node_type (arg_str args (lit "page"))
                (arg_str args (lit "under"))))
      else if name == lit "figmog_search"
      then some (
          some (do
            q ← require_str args (lit "query")
            search l.ranked r q (or_else (arg_usize args (lit "limit")) 10)
                (arg_str args (lit "under"))))
      else if name == lit "figmog_instances"
      then some (some (do target ← require_str args (lit "target"); instances r target))
      else if name == lit "figmog_uses"
      then some (some (do id ← require_str args (lit "id"); uses r id))
      else if name == lit "figmog_text"
      then some (some (text r (arg_str args (lit "page")) (arg_str args (lit "under"))))
      else if name == lit "figmog_where"
      then some (read_where args)
      else if name == lit "figmog_at"
      then some (
          some (do
            x ← require_f64 l.serde args (lit "x")
            y ← require_f64 l.serde args (lit "y")
            at l.doubles r x y))
      else none

  -- The inventories, and then the tools that select nodes
  abbrev inventory_tool : Str → Value → Option Answer
  inventory_tool name args =
      if name == lit "figmog_components"
      then some (some (components l.serde r))
      else if name == lit "figmog_styles"
      then some (
          some (
            styles l.serde r (arg_str args (lit "type")) (arg_bool args (lit "values"))
              (arg_bool args (lit "resolve_vars"))))
      else if name == lit "figmog_vars"
      then some (some (vars l.serde r (arg_str args (lit "id"))))
      else if name == lit "figmog_stats"
      then some (stats r)
      else select_tool name args

  -- The order of the names does not matter, since they differ.
  unfoldable pub dispatch_read_tool : Str → Value → Option Answer
  unfolding status pages tree node subtree find search instances components styles uses vars stats
      path text where_ at require_str require_f64 filter_map
  dispatch_read_tool name args =
      if name == lit "figmog_status"
      then some read_status
      else if name == lit "figmog_pages"
      then some (some (pages r))
      else if name == lit "figmog_tree"
      then some (tree r fuel (arg_str args (lit "id")) (arg_usize args (lit "depth")))
      else if name == lit "figmog_node"
      then some (
          some (do
            id ← require_str args (lit "id")
            node l.serde l.parse_error r id (arg_bool args (lit "children"))
                (arg_bool args (lit "resolve_vars"))))
      else if name == lit "figmog_subtree"
      then some (read_subtree args)
      else if name == lit "figmog_path"
      then some (with_required (require_str args (lit "id")) (path r))
      else inventory_tool name args
