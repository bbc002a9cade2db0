-- ===== src/Query/Points.antt =====
-- The nodes at a point, in src/query.rs: `at`.
use figmog.Prelude.{ℕ, Bool, true, false, ◌&&◌, Option, none, some, [], ◌∷◌, map}
use figmog.Prelude.Tests.{if◌then◌else◌}
use figmog.Prelude.Text.{Str, lit}
use figmog.Prelude.Sorting.{sort, str_leb}
use figmog.Json.{Value, str, array, object}
use figmog.Model.{NodeRec}
use figmog.Api.{Result, ok}
use figmog.Store.Stream.{filter_map}
use figmog.Query.Readers.{Readers}
use figmog.Query.Stats.{all_nodes}

-- The operations of the processor on doubles, which are bit patterns here, and how one is printed
pub record Doubles : Type 0 where
  pub leb : ℕ → ℕ → Bool
  pub ltb : ℕ → ℕ → Bool
  pub add : ℕ → ℕ → ℕ
  pub mul : ℕ → ℕ → ℕ
  pub to_json : ℕ → Value

module _ (f : Doubles) where
  -- `a.partial_cmp(&b).unwrap_or(Equal)` on the areas, then the ids. Bounds from JSON are no NaN.
  abbrev area_leb : ℕ × NodeRec → ℕ × NodeRec → Bool
  area_leb (a, m) (b, n) =
      if f.ltb a b then true else if f.ltb b a then false else str_leb m.id n.id

  abbrev pub contains : ℕ → ℕ → ℕ × ℕ × ℕ × ℕ → Bool
  contains x y (bx, by, w, h) =
      f.leb bx x && f.ltb x (f.add bx w) && f.leb by y && f.ltb y (f.add by h)

  abbrev area_of : ℕ → ℕ → NodeRec → Option (ℕ × NodeRec)
  area_of x y n = elim n.abs_bounds [
    | none ↦ none
    | some (bx, by, w, h) ↦ if contains x y (bx, by, w, h) then some (f.mul w h, n) else none
  ]

  abbrev point_json : ℕ × NodeRec → Value
  point_json (area, n) = object (
      (lit "id", str n.id)
      ∷ (lit "name", str n.name)
      ∷ (lit "type", str n.node_type)
      ∷ (lit "page_id", str n.page_id)
      ∷ (lit "area", f.to_json area)
      ∷ [])

  unfoldable pub at : Readers → ℕ → ℕ → Result Str Value
  unfolding filter_map
  at r x y = ok (array (map point_json (sort area_leb (filter_map (area_of x y) (all_nodes r)))))
