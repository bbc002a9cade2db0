-- ===== src/Query/Ancestors.antt =====
-- The walks up the `parent_id`s of src/query.rs: `path` and `depth_of`.
pub mod Walks
pub mod Endings
pub mod Laws
use mathlib.Core.Option
use figmog.Prelude.{
  ℕ, zero, suc, ◌+◌, Bool, true, false, Option, none, some, List, [], ◌∷◌, ◌++◌, map,
}
use figmog.Prelude.Lists.{length}
use figmog.Prelude.Text.{Str, lit, str_eq}
use figmog.Prelude.Members.{member}
use figmog.Json.{Value, str, array, object}
use figmog.Model.{NodeRec}
use figmog.Ident.{normalize_node_ref}
use figmog.Api.{Result, ok, err}
use figmog.Query.Readers.{Readers}
use figmog.Query.Scope.{no_node}

-- The loop of `path`, with `chain` in the order that it has after the reversal. Without fuel there
-- is no result.
unfoldable pub climb :
    ℕ → (Str → Option NodeRec) → List Str → Str → List NodeRec → Option (Result Str (List NodeRec))
climb zero node visited current chain = none
climb (suc fuel) node visited current chain = elim (member current visited) [
  | true ↦ some (err (lit "parent cycle detected at " ++ current))
  | false ↦ elim (node current) [
    | none ↦ some (err (no_node current))
    | some n ↦ elim n.parent_id [
      | some p ↦ climb fuel node (current ∷ visited) p (n ∷ chain)
      | none ↦ some (ok (n ∷ chain))
    ]
  ]
]

abbrev pub node_summary : NodeRec → Value
node_summary n =
    object ((lit "id", str n.id) ∷ (lit "name", str n.name) ∷ (lit "type", str n.node_type) ∷ [])

abbrev pub chain_answer : Result Str (List NodeRec) → Result Str Value
chain_answer (ok chain) = ok (array (map node_summary chain))
chain_answer (err e) = err e

unfoldable pub path : Readers → Str → Option (Result Str Value)
unfolding climb
path r id =
    Option.map chain_answer (climb (suc (length r.nodes)) r.node [] (normalize_node_ref id) [])

-- The loop of `depth_of`.
unfoldable pub rise : ℕ → (Str → Option NodeRec) → List Str → Str → ℕ → Option ℕ
rise zero node visited current depth = none
rise (suc fuel) node visited current depth = elim (node current) [
  | none ↦ some depth
  | some n ↦ elim (member current visited) [
    | true ↦ some depth
    | false ↦ elim n.parent_id [
      | some parent ↦ rise fuel node (current ∷ visited) parent (depth + 1)
      | none ↦ some depth
    ]
  ]
]

unfoldable pub depth_of : Readers → Str → Option ℕ
unfolding rise
depth_of r id = rise (suc (length r.nodes)) r.node [] id 0
