-- ===== src/Flatten/Walk/Records.antt =====
-- The single records of `walk` in src/flatten.rs.
use mathlib.Core.Path.{subst}
use figmog.Prelude.{ℕ, ◌+◌, ◌≡◌, inl, inr, refl, sym, Option, none, some, arith}
use figmog.Prelude.Tests.{◌==◌, if◌then◌else◌, Option-cases, Bool-cases}
use figmog.Prelude.Lists.{All, All-append}
use figmog.Prelude.Text.{Str, lit, str_eq, str_beq_iff}
use figmog.Prelude.Members.{Distinct}
use figmog.Prelude.Sorting.{Sorted, pair_leb}
use figmog.Json.{
  Value, null, bool, num, str, arr, obj, Items, nil, cons, Fields, end, field, find, remove, Serde,
}
use figmog.Model.{RecId, Rec}
use figmog.Flatten.Scan.Laws.{scan_bound_variables_lem, sorted_map-Sorted}
use figmog.Flatten.Walk.{
  walk, walk_children, walk_array, walk_items, node_rec, page_of, type_of, as_u32, str_field,
}
use figmog.Flatten.Walk.Laws.{walk_children_hit, walk_children_miss}

module _ (sd : Serde) (P : RecId × Rec → Type 0)
    (at_node : (fs : Fields) (id : Str) (parent : Option Str) (i : ℕ) (page : Option Str)
      → str_field (obj fs) (lit "id") ≡ some id
      → P (RecId.node id, Rec.node (node_rec sd fs id parent i page))) where
  mutual
    unfolding walk

    pub walk-All :
        (v : Value) (parent : Option Str) (i : ℕ) (page : Option Str)
        → All P (walk sd v parent i page)
    walk-All (obj fs) parent i page = elim (Option-cases (str_field (obj fs) (lit "id"))) [
      | inl e ↦ rw (e, walk) tt
      | inr (id, e) ↦
          rw (e, walk)
            (
              at_node fs id parent i page e,
              walk_children-All fs id (page_of (type_of (obj fs)) id page),
            )
    ]
    walk-All null parent i page = tt
    walk-All (bool b) parent i page = tt
    walk-All (num n) parent i page = tt
    walk-All (str s) parent i page = tt
    walk-All (arr vs) parent i page = tt

    walk_children-All : (fs : Fields) (id page : Str) → All P (walk_children sd fs id page)
    walk_children-All end id page = tt
    walk_children-All (field k v fs) id page = elim (Bool-cases (k == lit "children")) [
      | inl e ↦
          subst (All P) (sym (walk_children_hit sd k v fs id page e)) (walk_array-All v id page)
      | inr e ↦
          subst (All P) (sym (walk_children_miss sd k v fs id page e))
            (walk_children-All fs id page)
    ]

    walk_array-All : (v : Value) (id page : Str) → All P (walk_array sd v id page)
    walk_array-All (arr vs) id page = walk_items-All vs 0 id page
    walk_array-All null id page = tt
    walk_array-All (bool b) id page = tt
    walk_array-All (num n) id page = tt
    walk_array-All (str s) id page = tt
    walk_array-All (obj fs) id page = tt

    walk_items-All : (vs : Items) (i : ℕ) (id page : Str) → All P (walk_items sd vs i id page)
    walk_items-All nil i id page = tt
    walk_items-All (cons v vs) i id page =
        All-append P (walk sd v (some id) (as_u32 i) (some page)) (walk_items sd vs (i + 1) id page)
          (walk-All v (some id) (as_u32 i) (some page)) (walk_items-All vs (i + 1) id page)

find-remove :
    (k j : Str) (fs : Fields) → find j (remove k fs) ≡ (if j == k then none else find j fs)
find-remove k j end = ground arith
find-remove k j (field i v fs) =
    ground (arith, find-remove k j fs, str_beq_iff i k, str_beq_iff i j, str_beq_iff j k)

-- The printed object: all of the node's keys but `children`.
abbrev pub IsRaw : Serde → Fields → Str → Type 0
IsRaw sd fs raw =
    (kept : Fields) × (raw ≡ sd.to_string (obj kept))
    × ((k : Str) → find k kept ≡ (if k == lit "children" then none else find k fs))

-- A record that comes from an object of the response with a string `id`.
abbrev pub IsFlat : Serde → RecId × Rec → Type 0
IsFlat sd (RecId.node k, Rec.node n) =
    (k ≡ n.id)
    × ((fs : Fields) × (str_field (obj fs) (lit "id") ≡ some n.id) × IsRaw sd fs n.raw)
    × Sorted pair_leb n.component_properties
    × Sorted pair_leb n.style_refs
    × (Sorted pair_leb n.bound_variables × Distinct n.bound_variables)
IsFlat sd _ = ⊥

module _ (sd : Serde) where
  node_rec-IsFlat :
      (fs : Fields) (id : Str) (parent : Option Str) (i : ℕ) (page : Option Str)
      → str_field (obj fs) (lit "id") ≡ some id
      → IsFlat sd (RecId.node id, Rec.node (node_rec sd fs id parent i page))
  unfolding node_rec
  node_rec-IsFlat fs id parent i page e =
      let kept = remove (lit "children") fs in
      let b = scan_bound_variables_lem (obj kept) in
      (
        refl,
        (fs, e, (kept, refl, λ k. find-remove (lit "children") k fs)),
        sorted_map-Sorted _ _,
        sorted_map-Sorted _ _,
        (b.0, b.1),
      )

  -- Every record of a walk comes from an object with that id, keeps all of it but its children in
  -- `raw`, and has its properties, styles and bindings sorted, no binding twice.
  pub walk-IsFlat :
      (v : Value) (parent : Option Str) (i : ℕ) (page : Option Str)
      → All (IsFlat sd) (walk sd v parent i page)
  walk-IsFlat = walk-All sd (IsFlat sd) node_rec-IsFlat
