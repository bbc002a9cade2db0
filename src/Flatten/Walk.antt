-- ===== src/Flatten/Walk.antt =====
-- src/flatten.rs: the depth-first walk over the document.
pub mod Laws
pub mod Records
use mathlib.Core.Option
use figmog.Prelude.{
  ℕ, zero, suc, ◌+◌, ◌%◌, ◌^◌, Bool, true, false, ◌||◌, Option, none, some, List, [], ◌∷◌, ◌++◌,
}
use figmog.Prelude.Tests.{◌==◌, if◌then◌else◌}
use figmog.Prelude.Text.{Str, lit, str_eq}
use figmog.Json.{
  Value, null, bool, num, str, arr, obj, Items, nil, cons, Fields, end, field, get, remove, as_str,
  as_bool, ◌>>=◌, Serde,
}
use figmog.Model.{RecId, Rec, NodeRec}
use figmog.Flatten.Scan.{scan_bound_variables, sorted_map}

-- `unwrap_or`
abbrev pub or_else {ℓ} : {A : Type ℓ} → Option A → A → A
or_else none d = d
or_else (some a) d = a

unfoldable pub str_field : Value → Str → Option Str
str_field v k = get v k >>= as_str

abbrev pub is_page_type : Str → Bool
is_page_type t = t == lit "DOCUMENT" || t == lit "CANVAS"

-- The page that a node with this id belongs to, given the page around it.
abbrev pub page_of : Str → Str → Option Str → Str
page_of node_type id page_id = if is_page_type node_type then id else or_else page_id id

abbrev pub type_of : Value → Str
type_of v = or_else (get v (lit "type") >>= as_str) (lit "UNKNOWN")

-- `i as u32`
abbrev pub as_u32 : ℕ → ℕ
as_u32 i = i % 2 ^ 32

module _ (sd : Serde) where
  abbrev bounds : Value → Option (ℕ × ℕ × ℕ × ℕ)
  bounds b = do
    x ← get b (lit "x")
    x' ← sd.as_f64 x
    y ← get b (lit "y")
    y' ← sd.as_f64 y
    w ← get b (lit "width")
    w' ← sd.as_f64 w
    h ← get b (lit "height")
    h' ← sd.as_f64 h
    some (x', y', w', h')

  abbrev printed_value : Value → Option Str
  printed_value v = Option.map sd.to_string (get v (lit "value"))

  -- The record of a node with this id, before the walk goes into its children.
  unfoldable pub node_rec : Fields → Str → Option Str → ℕ → Option Str → NodeRec
  unfolding str_field
  node_rec fs id parent_id child_index page_id =
      let node = obj fs in
      let raw = obj (remove (lit "children") fs) in
      record {
        id = id;
        parent_id = parent_id;
        child_index = child_index;
        page_id = page_of (type_of node) id page_id;
        node_type = type_of node;
        name = or_else (str_field node (lit "name")) [];
        visible = or_else (get node (lit "visible") >>= as_bool) true;
        text = str_field node (lit "characters");
        component_id = str_field node (lit "componentId");
        component_properties = sorted_map (get node (lit "componentProperties")) printed_value;
        property_definitions =
            Option.map sd.to_string (get node (lit "componentPropertyDefinitions"));
        style_refs = sorted_map (get node (lit "styles")) as_str;
        bound_variables = scan_bound_variables raw;
        abs_bounds = get node (lit "absoluteBoundingBox") >>= bounds;
        raw = sd.to_string raw;
      }

  unfoldable mutual
    unfolding node_rec str_field

    pub walk : Value → Option Str → ℕ → Option Str → List (RecId × Rec)
    walk (obj fs) parent_id child_index page_id = elim (str_field (obj fs) (lit "id")) [
      | none ↦ []
      | some id ↦
          (RecId.node id, Rec.node (node_rec fs id parent_id child_index page_id))
          ∷ walk_children fs id (page_of (type_of (obj fs)) id page_id)
    ]
    walk _ parent_id child_index page_id = []

    -- the first `children` of the object
    pub walk_children : Fields → Str → Str → List (RecId × Rec)
    walk_children end id page = []
    walk_children (field k v fs) id page = elim (k == lit "children") [
      | true ↦ walk_array v id page
      | false ↦ walk_children fs id page
    ]

    pub walk_array : Value → Str → Str → List (RecId × Rec)
    walk_array (arr vs) id page = walk_items vs 0 id page
    walk_array _ id page = []

    pub walk_items : Items → ℕ → Str → Str → List (RecId × Rec)
    walk_items nil i id page = []
    walk_items (cons v vs) i id page =
        walk v (some id) (as_u32 i) (some page) ++ walk_items vs (i + 1) id page
