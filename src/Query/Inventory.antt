-- ===== src/Query/Inventory.antt =====
-- The inventories of src/query.rs: `components`, `styles` and `vars`.
use figmog.Prelude.{Bool, true, false, Option, none, some, List, [], ◌∷◌, ◌++◌, map}
use figmog.Prelude.Tests.{◌==◌, if◌then◌else◌}
use figmog.Prelude.Lists.{length}
use figmog.Prelude.Text.{Str, lit, str_eq, decimal, to_ascii_lowercase}
use figmog.Prelude.Filtering.{keep_if}
use figmog.Prelude.Sorting.{sort, dedup, str_leb}
use figmog.Json.{Value, null, num, str, obj, end, array, object, Serde, ◌>>=◌}
use figmog.Model.{
  NodeRec, ComponentRec, ComponentSetRec, StyleRec, VariableRec, VariableCollectionRec,
}
use figmog.Api.{Result, ok}
use figmog.Flatten.Walk.{or_else}
use figmog.Vars.Inferred.{
  VarUsage, infer_from_nodes, style_value_pointer, style_value_from_consumer,
}
use figmog.Proxy.{starts_with}
use figmog.Query.Readers.{Readers}
use figmog.Query.Bindings.{values_by_mode, modes_of, resolved_variables}
use figmog.Query.Tree.{with_field}
use figmog.Query.Stats.{all_nodes}

-- `sort_by(|a, b| a.0.cmp(&b.0))`
abbrev key_leb : {A : Type 0} → Str × A → Str × A → Bool
key_leb a b = str_leb a.0 b.0

abbrev component_json : Str × ComponentRec → Value
component_json (cid, c) =
    object ((lit "node_id", str cid) ∷ (lit "name", str c.name) ∷ (lit "key", str c.key) ∷ [])

abbrev is_variant_of : Str → Str × ComponentRec → Bool
is_variant_of set_id (_, c) = elim c.component_set_id [ none ↦ false | some s ↦ s == set_id ]

abbrev is_standalone : Str × ComponentRec → Bool
is_standalone (_, c) = elim c.component_set_id [ none ↦ true | some _ ↦ false ]

abbrev set_json : Serde → Readers → List (Str × ComponentRec) → Str × ComponentSetRec → Value
set_json sd r all_components (set_id, set) = object (
    (lit "node_id", str set_id)
    ∷ (lit "name", str set.name)
    ∷ (lit "key", str set.key)
    ∷ (lit "variants", array (map component_json (keep_if (is_variant_of set_id) all_components)))
    ∷ (
      lit "property_definitions",
      or_else (r.node set_id >>= λ n. n.property_definitions >>= λ s. sd.from_str s) null,
    )
    ∷ [])

unfoldable pub components : Serde → Readers → Result Str Value
components sd r =
    let all_components = sort key_leb r.components in
    ok (
      object (
        (lit "sets", array (map (set_json sd r all_components) (sort key_leb r.component_sets)))
        ∷ (lit "components", array (map component_json (keep_if is_standalone all_components)))
        ∷ []))

abbrev of_type : Option Str → Str × StyleRec → Bool
of_type none row = true
of_type (some t) (_, s) = to_ascii_lowercase s.style_type == to_ascii_lowercase t

abbrev first_consumer : Readers → List Str → Option NodeRec
first_consumer r [] = none
first_consumer r (nid ∷ _) = r.node nid

abbrev is_under : Option Str → Str × Str → Bool
is_under none binding = false
is_under (some prefix) (pointer, _) = starts_with pointer prefix

abbrev bindings_under : Option Str → Option NodeRec → List (Str × Str)
bindings_under prefix none = []
bindings_under prefix (some n) = keep_if (is_under prefix) n.bound_variables

abbrev style_json : Str → StyleRec → List Str → Value
style_json style_id s consumers = object (
    (lit "style_id", str style_id)
    ∷ (lit "name", str s.name)
    ∷ (lit "key", str s.key)
    ∷ (lit "type", str s.style_type)
    ∷ (lit "uses", num (decimal (length consumers)))
    ∷ [])

module _ (sd : Serde) (r : Readers) where
  abbrev with_resolved : Bool → StyleRec → Option NodeRec → Value → Value
  with_resolved false s consumer v = v
  with_resolved true s consumer v =
      with_field (lit "resolved_variables")
        (resolved_variables sd r (bindings_under (style_value_pointer s.style_type) consumer)) v

  abbrev with_value : Bool → Bool → StyleRec → Option NodeRec → Value → Value
  with_value false resolve_vars s consumer v = v
  with_value true resolve_vars s consumer v = with_resolved resolve_vars s consumer (
      with_field (lit "value")
        (or_else (consumer >>= λ n. style_value_from_consumer sd s.style_type n.raw) null) v)

  abbrev style_answer : Bool → Bool → Str × StyleRec → Value
  style_answer values resolve_vars (style_id, s) =
      let consumers = sort str_leb (r.styled_by style_id) in
      with_value values resolve_vars s (first_consumer r consumers)
        (style_json style_id s consumers)

  unfoldable pub styles : Option Str → Bool → Bool → Result Str Value
  unfolding resolved_variables style_value_from_consumer decimal
  styles style_type values resolve_vars = ok (
      array (
        map (style_answer values resolve_vars)
          (keep_if (of_type style_type) (sort key_leb r.styles))))

  abbrev usage_in : List VarUsage → Str → List (Str × Str) × List Str
  usage_in [] vid = ([], [])
  usage_in (u ∷ us) vid =
      let rest = usage_in us vid in if u.variable_id == vid then (u.sites, u.observed) else rest

  abbrev site_json : Str × Str → Value
  site_json (node_id, pointer) = array (str node_id ∷ str pointer ∷ [])

  abbrev collection_name : Option VariableCollectionRec → Value
  collection_name none = null
  collection_name (some c) = str c.name

  abbrev var_json : Str → Option VariableRec → List (Str × Str) × List Str → Value
  var_json vid none (sites, observed) = object (
      (lit "variable_id", str vid)
      ∷ (lit "source", str (lit "inferred"))
      ∷ (lit "sites", array (map site_json sites))
      ∷ (lit "observed", array (map str observed))
      ∷ [])
  var_json vid (some var) (sites, observed) =
      let collection = r.collection var.collection_id in
      object (
        (lit "variable_id", str vid)
        ∷ (lit "source", str (lit "imported"))
        ∷ (lit "name", str var.name)
        ∷ (lit "resolved_type", str var.resolved_type)
        ∷ (lit "collection", collection_name collection)
        ∷ (
          lit "values_by_mode",
          obj (values_by_mode sd r (modes_of collection) var.values_by_mode end),
        )
        ∷ (lit "sites", array (map site_json sites))
        ∷ (lit "observed", array (map str observed))
        ∷ [])

  abbrev is_target : Option Str → Str → Bool
  is_target none vid = true
  is_target (some target) vid = vid == target

  abbrev all_ids : List VarUsage → List Str
  all_ids inferred = dedup (
      sort str_leb
        (map (λ u. u.variable_id) inferred ++ map (λ (row : Str × VariableRec). row.0) r.variables))

  unfoldable pub vars : Option Str → Result Str Value
  unfolding infer_from_nodes values_by_mode
  vars id_filter =
      let inferred = infer_from_nodes sd (all_nodes r) in
      ok (
        array (
          map (λ vid. var_json vid (r.variable vid) (usage_in inferred vid))
            (keep_if (is_target id_filter) (all_ids inferred))))
