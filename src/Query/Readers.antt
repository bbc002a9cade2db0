-- ===== src/Query/Readers.antt =====
-- The readers that src/query.rs is given: the tables and indices of `figmog_pipeline!`.
use figmog.Prelude.{ℕ, ◌≡◌, ◌↔◌, Option, some, List}
use figmog.Prelude.Text.{Str}
use figmog.Prelude.Members.{In}
use figmog.Model.{
  NodeRec, ComponentRec, ComponentSetRec, StyleRec, VariableRec, VariableCollectionRec, FileMeta,
}
use figmog.Store.Branches.{child_edge, type_edge}

-- `nodes` and the other lists are what the tables iterate, `node` and the like are their `get`, and
-- `by_type` and the like are `search` of the inverted indices.
pub record Readers : Type 0 where
  pub nodes : List (Str × NodeRec)
  pub node : Str → Option NodeRec
  pub children : Str → List (ℕ × Str)
  pub by_type : Str → List Str
  pub instances_of : Str → List Str
  pub styled_by : Str → List Str
  pub bound_to : Str → List Str
  pub components : List (Str × ComponentRec)
  pub component : Str → Option ComponentRec
  pub component_sets : List (Str × ComponentSetRec)
  pub styles : List (Str × StyleRec)
  pub variables : List (Str × VariableRec)
  pub variable : Str → Option VariableRec
  pub collection : Str → Option VariableCollectionRec
  pub meta : Option FileMeta

-- What the pipeline keeps of the tables: a row is what `get` finds, and an edge comes from a row.
pub record AreReaders (r : Readers) : Type 0 where
  pub node-rows : (k : Str) (n : NodeRec) → In (k, n) r.nodes ↔ (r.node k ≡ some n)
  pub keyed : (k : Str) (n : NodeRec) → In (k, n) r.nodes → k ≡ n.id
  pub children-rows :
      (p c : Str) (i : ℕ)
      → In (i, c) (r.children p)
      → (k : Str) × (n : NodeRec) × In (k, n) r.nodes × (child_edge (k, n) ≡ some (p, (i, c)))
  pub by_type-rows :
      (t k : Str)
      → In k (r.by_type t)
        ↔ ((j : Str) × (n : NodeRec) × In (j, n) r.nodes × (type_edge (j, n) ≡ (k, t)))
