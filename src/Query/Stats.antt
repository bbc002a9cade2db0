-- ===== src/Query/Stats.antt =====
-- The counts of src/query.rs: `stats`.
pub mod Laws
use figmog.Prelude.{ℕ, ◌+◌, Bool, true, false, ◌||◌, Option, none, some, List, [], ◌∷◌, map}
use figmog.Prelude.Tests.{◌==◌, if◌then◌else◌, ltb}
use figmog.Prelude.Lists.{length}
use figmog.Prelude.Text.{Str, lit, str_eq, decimal}
use figmog.Prelude.Sorting.{str_leb}
use figmog.Json.{Value, num, object, ◌>>=◌}
use figmog.Model.{NodeRec}
use figmog.Api.{Result, ok, err}
use figmog.Query.Readers.{Readers}
use figmog.Query.Ancestors.{depth_of}

-- A `BTreeMap<String, usize>`, in the order of its keys
abbrev pub Counts : Type 0
Counts = List (Str × ℕ)

-- `*counts.entry(k).or_insert(0) += 1`
abbrev pub counted : Str → Counts → Counts
counted k [] = (k, 1) ∷ []
counted k ((j, c) ∷ rest) =
    let later = counted k rest in
    if j == k
    then (j, c + 1) ∷ rest
    else if str_leb k j
    then (k, 1) ∷ (j, c) ∷ rest
    else (j, c) ∷ later

abbrev pub counted_by_type : NodeRec → Counts → Counts
counted_by_type n counts = counted n.node_type counts

-- The document and the pages are not contents of a page.
abbrev pub is_content : NodeRec → Bool
is_content n =
    if n.node_type == lit "DOCUMENT"
    then false
    else if n.node_type == lit "CANVAS"
    then false
    else true

abbrev pub counted_by_page : NodeRec → Counts → Counts
counted_by_page n counts = if is_content n then counted n.page_id counts else counts

abbrev pub larger : ℕ → ℕ → ℕ
larger a b = if ltb a b then b else a

-- The loop over the nodes
unfoldable pub count_nodes :
    Readers → List NodeRec → Counts → Counts → ℕ → Option (Counts × Counts × ℕ)
unfolding depth_of
count_nodes r [] by_type by_page max_depth = some (by_type, by_page, max_depth)
count_nodes r (n ∷ rest) by_type by_page max_depth = depth_of r n.id >>= λ d.
    count_nodes r rest (counted_by_type n by_type) (counted_by_page n by_page) (larger max_depth d)

abbrev count_json : ℕ → Value
count_json n = num (decimal n)

abbrev counts_json : Counts → Value
counts_json counts = object (map (λ (row : Str × ℕ). (row.0, count_json row.1)) counts)

abbrev pub stats_json : Readers → Counts × Counts × ℕ → Value
stats_json r (by_type, by_page, max_depth) = object (
    (lit "by_type", counts_json by_type)
    ∷ (lit "by_page", counts_json by_page)
    ∷ (
      lit "totals",
      object (
          (lit "components", count_json (length r.components))
          ∷ (lit "component_sets", count_json (length r.component_sets))
          ∷ (lit "styles", count_json (length r.styles))
          ∷ (lit "variables", count_json (length r.variables))
          ∷ []),
    )
    ∷ (lit "text_nodes", count_json (length (r.by_type (lit "TEXT"))))
    ∷ (lit "max_depth", count_json max_depth)
    ∷ [])

abbrev pub all_nodes : Readers → List NodeRec
all_nodes r = map (λ (row : Str × NodeRec). row.1) r.nodes

unfoldable pub stats : Readers → Option (Result Str Value)
unfolding count_nodes decimal
stats r = count_nodes r (all_nodes r) [] [] 0 >>= λ found. some (ok (stats_json r found))
