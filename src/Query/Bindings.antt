-- ===== src/Query/Bindings.antt =====
-- The variable bindings of src/query.rs, resolved against the tables of variables, the status of the
-- mirror, and the projection of a node to some of its fields.
pub mod Projection
use figmog.Prelude.{ℕ, Bool, true, false, ◌||◌, Option, none, some, List, [], ◌∷◌, ◌++◌, map}
use figmog.Prelude.Tests.{◌==◌, if◌then◌else◌}
use figmog.Prelude.Lists.{length}
use figmog.Prelude.Text.{Str, lit, str_eq, decimal}
use figmog.Prelude.Members.{member}
use figmog.Json.{Value, null, num, str, obj, Fields, end, field, insert, array, object, Serde}
use figmog.Model.{NodeRec, VariableRec, VariableCollectionRec, FileMeta}
use figmog.Api.{Result, ok, err}
use figmog.Flatten.Walk.{or_else}
use figmog.Query.Readers.{Readers}

-- `modes.iter().find(|(mid, _)| mid == mode_id)`, and its name
abbrev pub mode_name : Str → List (Str × Str) → Option Str
mode_name id [] = none
mode_name id ((mid, name) ∷ modes) = if mid == id then some name else mode_name id modes

abbrev pub modes_of : Option VariableCollectionRec → List (Str × Str)
modes_of none = []
modes_of (some c) = c.modes

module _ (sd : Serde) (r : Readers) where
  -- A later mode of the same name takes the place of an earlier one.
  unfoldable pub values_by_mode : List (Str × Str) → List (Str × Str) → Fields → Fields
  values_by_mode modes [] fields = fields
  values_by_mode modes ((mode_id, val) ∷ rest) fields =
      values_by_mode modes rest
        (insert (or_else (mode_name mode_id modes) mode_id) (or_else (sd.from_str val) null) fields)

  unfoldable pub resolve_variable_binding : Str → Str → Value
  unfolding values_by_mode
  resolve_variable_binding pointer variable_id = elim (r.variable variable_id) [
    | some var ↦ object (
        (lit "pointer", str pointer)
        ∷ (lit "variable_id", str variable_id)
        ∷ (lit "variable_name", str var.name)
        ∷ (
          lit "values_by_mode",
          obj (values_by_mode (modes_of (r.collection var.collection_id)) var.values_by_mode end),
        )
        ∷ [])
    | none ↦ object (
        (lit "pointer", str pointer)
        ∷ (lit "variable_id", str variable_id)
        ∷ (lit "source", str (lit "unresolved"))
        ∷ [])
  ]

  unfoldable pub resolved_variables : List (Str × Str) → Value
  unfolding resolve_variable_binding
  resolved_variables bound = array (map (λ (b : Str × Str). resolve_variable_binding b.0 b.1) bound)

-- the dash is U+2014
abbrev no_mirror : Str
no_mirror =
    lit "no mirror here " ++ (0xe2 ∷ 0x80 ∷ 0x94 ∷ lit " run `figmog pull <file-url>` first")

unfoldable pub status : Readers → Result Str Value
unfolding decimal
status r = elim r.meta [
  | none ↦ err no_mirror
  | some m ↦ ok (
      object (
        (lit "name", str m.name)
        ∷ (lit "version", str m.version)
        ∷ (lit "last_modified", str m.last_modified)
        ∷ (lit "synced_at_unix_ms", num (decimal m.synced_at_unix_ms))
        ∷ (lit "nodes", num (decimal (length r.nodes)))
        ∷ []))
]

abbrev pub subtree_always_fields : List Str
subtree_always_fields = lit "id" ∷ lit "name" ∷ lit "type" ∷ []

-- `map.retain(..)`
unfoldable pub retain : (Str → Bool) → Fields → Fields
retain keep end = end
retain keep (field k v fs) = let rest = retain keep fs in if keep k then field k v rest else rest

abbrev pub is_kept : List Str → Str → Bool
is_kept fields k = member k subtree_always_fields || member k fields

unfoldable pub project_raw_fields : Value → List Str → Value
unfolding retain
project_raw_fields (obj fs) fields = obj (retain (is_kept fields) fs)
project_raw_fields v fields = v
