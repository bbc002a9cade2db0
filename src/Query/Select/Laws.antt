-- ===== src/Query/Select/Laws.antt =====
-- What `find` and `text` list, and which components a target names.
use figmog.Prelude.{◌≡◌, ◌↔◌, ◌⊎◌, inl, inr, refl, true, Option, none, some, List}
use figmog.Prelude.Tests.{Option-cases}
use figmog.Prelude.Text.{Str, str_eq, str_beq_iff}
use figmog.Prelude.Members.{member_sound, member_complete}
use figmog.Prelude.Sorting.{sort, str_leb}
use figmog.Prelude.Rows.{Row}
use figmog.Model.{NodeRec}
use figmog.Ident.{normalize_node_ref}
use figmog.Api.{ok, err}
use figmog.Store.Stream.{filter_map}
use figmog.Query.Readers.{Readers, AreReaders}
use figmog.Query.Scope.{resolve_under, scope_ids, no_node}
use figmog.Query.Scope.Reachable.{Reach, scope_ids_lem}
use figmog.Query.Select.{in_page, in_scope, normal_page}

abbrev pub InPage : Option Str → NodeRec → Type 0
InPage none n = Unit
InPage (some p) n = n.page_id ≡ normalize_node_ref p

abbrev pub InScope : Readers → Option Str → NodeRec → Type 0
InScope r none n = Unit
InScope r (some raw) n = Reach r.children (normalize_node_ref raw) n.id

-- The scope is the id of a node that is not stored.
abbrev pub Unknown : Readers → Option Str → Str → Type 0
Unknown r none e = ⊥
Unknown r (some raw) e =
    (r.node (normalize_node_ref raw) ≡ none) × (e ≡ no_node (normalize_node_ref raw))

-- A stored node of the type, on the page, in the scope.
pub record Wanted (r : Readers) (node_type : Str) (page under : Option Str) (n : NodeRec)
    : Type 0 where
  pub stored : r.node n.id ≡ some n
  pub typed : n.node_type ≡ node_type
  pub on_page : InPage page n
  pub in_reach : InScope r under n

pub in_page_iff :
    (page : Option Str) (n : NodeRec) → (in_page (normal_page page) n ≡ true) ↔ InPage page n
in_page_iff none n = ((λ h. tt), (λ h. refl))
in_page_iff (some p) n = str_beq_iff n.page_id (normalize_node_ref p)

module _ (r : Readers) (laws : AreReaders r) where
  pub resolve_under_lem :
      (under : Option Str)
      → ((scope : Option (List Str)) × (resolve_under r under ≡ ok scope)
          × ((n : NodeRec) → (in_scope scope n ≡ true) ↔ InScope r under n))
        ⊎ ((e : Str) × (resolve_under r under ≡ err e) × Unknown r under e)
  unfolding resolve_under
  resolve_under_lem none = inl (none, refl, λ n. ((λ h. tt), (λ h. refl)))
  resolve_under_lem (some raw) = elim (Option-cases (r.node (normalize_node_ref raw))) [
    | inl m ↦ inr (no_node (normalize_node_ref raw), rw (m, resolve_under) refl, (m, refl))
    | inr (n, m) ↦
        let root = normalize_node_ref raw in
        let (distinct, same) = scope_ids_lem r root laws in
        inl (
          some (scope_ids r root),
          rw (m, resolve_under) refl,
          λ k. (
            (λ h. (same k.id).0 (member_sound k.id (scope_ids r root) h)),
            (λ h. member_complete k.id (scope_ids r root) ((same k.id).1 h)),
          ),
        )
  ]

  module _ (row : NodeRec → Row) (node_type : Str) (page under : Option Str)
      (scope : Option (List Str))
      (same : (n : NodeRec) → (in_scope scope n ≡ true) ↔ InScope r under n) where
    typed_rows : List NodeRec
    unfolding filter_map
    typed_rows = filter_map r.node (sort str_leb (r.by_type node_type))
