-- ===== src/Vars/Inferred.antt =====
-- src/vars.rs: the variables as the nodes that are bound to them show them, and the values of styles.
pub mod Laws
use figmog.Prelude.{Bool, Option, none, some, List, [], ◌∷◌, ◌++◌, map}
use figmog.Prelude.Tests.{◌==◌, if◌then◌else◌}
use figmog.Prelude.Text.{Str, lit, str_eq}
use figmog.Prelude.Sorting.{sort, dedup, str_leb, pair_leb}
use figmog.Json.{Value, Serde, ◌>>=◌}
use figmog.Model.{NodeRec}

pub record VarUsage : Type 0 where
  pub variable_id : Str
  pub sites : List (Str × Str)
  pub observed : List Str

-- The sites of a variable and the values seen there
abbrev pub VarData : Type 0
VarData = List (Str × Str) × List Str

-- A `BTreeMap` from variables, in the order of its keys
abbrev pub ByVar : Type 0
ByVar = List (Str × VarData)

-- `by_var.entry(k).or_default()`, and the pushes to it
abbrev pub add_site : Str → Str × Str → List Str → ByVar → ByVar
add_site k site seen [] = (k, (site ∷ [], seen)) ∷ []
add_site k site seen ((j, (sites, observed)) ∷ rest) =
    let later = add_site k site seen rest in
    if j == k
    then (j, (sites ++ (site ∷ []), observed ++ seen)) ∷ rest
    else if str_leb k j
    then (k, (site ∷ [], seen)) ∷ (j, (sites, observed)) ∷ rest
    else (j, (sites, observed)) ∷ later

abbrev pub usage_of : Str × VarData → VarUsage
usage_of (variable_id, (sites, observed)) = record {
  variable_id = variable_id;
  sites = sort pair_leb sites;
  observed = dedup (sort str_leb observed);
}

module _ (sd : Serde) where
  abbrev pub seen_at : Value → Str → List Str
  seen_at raw pointer = elim (sd.pointer raw pointer) [ none ↦ [] | some v ↦ sd.to_string v ∷ [] ]

  abbrev pub add_sites : NodeRec → Value → List (Str × Str) → ByVar → ByVar
  add_sites n raw [] by_var = by_var
  add_sites n raw ((pointer, var_id) ∷ rest) by_var =
      add_sites n raw rest (add_site var_id (n.id, pointer) (seen_at raw pointer) by_var)

  abbrev pub add_bindings : NodeRec → ByVar → ByVar
  add_bindings n by_var = elim (sd.from_str n.raw) [
    | none ↦ by_var
    | some raw ↦ add_sites n raw n.bound_variables by_var
  ]

  abbrev pub add_nodes : List NodeRec → ByVar → ByVar
  add_nodes [] by_var = by_var
  add_nodes (n ∷ ns) by_var = add_nodes ns (add_bindings n by_var)

  unfoldable pub infer_from_nodes : List NodeRec → List VarUsage
  infer_from_nodes nodes = map usage_of (add_nodes nodes [])

abbrev pub style_value_pointer : Str → Option Str
style_value_pointer t =
    if t == lit "TEXT"
    then some (lit "/style")
    else if t == lit "FILL"
    then some (lit "/fills")
    else if t == lit "EFFECT"
    then some (lit "/effects")
    else if t == lit "GRID"
    then some (lit "/layoutGrids")
    else none

unfoldable pub style_value_from_consumer : Serde → Str → Str → Option Value
style_value_from_consumer sd style_type consumer_raw = sd.from_str consumer_raw >>= λ raw.
    style_value_pointer style_type >>= λ pointer. sd.pointer raw pointer
