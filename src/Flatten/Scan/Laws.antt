-- ===== src/Flatten/Scan/Laws.antt =====
-- The lists that the scan gives are sorted, as the record's determinism contract asks.
use figmog.Prelude.{inl, inr, Option, []}
use figmog.Prelude.Tests.{Option-cases}
use figmog.Prelude.Text.{Str}
use figmog.Prelude.Members.{In, Distinct}
use figmog.Prelude.Sorting.{
  sort, pair_leb, pair_eq, pair_leb-IsOrder, Sorted, sort-Sorted, dedup-Sorted, In-sort, sort-In,
  In-dedup, dedup-In,
}
use figmog.Json.{Value, as_object, ◌>>=◌}
use figmog.Flatten.Scan.{scan_bv, scan_bound_variables, sorted_map, keep_some}

-- The bindings of a node are listed in order, each once, and they are those that the scan finds.
pub scan_bound_variables_lem :
    (raw : Value)
    → Sorted pair_leb (scan_bound_variables raw)
      × Distinct (scan_bound_variables raw)
      × ((b : Str × Str) → In b (scan_bound_variables raw) → In b (scan_bv raw []))
      × ((b : Str × Str) → In b (scan_bv raw []) → In b (scan_bound_variables raw))
unfolding scan_bound_variables
scan_bound_variables_lem raw =
    let sorted = sort pair_leb (scan_bv raw []) in
    let (s, d) =
      dedup-Sorted pair_leb-IsOrder sorted (sort-Sorted pair_leb-IsOrder (scan_bv raw [])) in
    (
      s,
      d,
      (λ b h. In-sort pair_leb b (scan_bv raw []) (In-dedup b sorted h)),
      λ b h. dedup-In b sorted (sort-In pair_leb b (scan_bv raw []) h),
    )

pub sorted_map-Sorted :
    (v : Option Value) (f : Value → Option Str) → Sorted pair_leb (sorted_map v f)
unfolding sorted_map
sorted_map-Sorted v f = elim (Option-cases (v >>= as_object)) [
  | inl e ↦ rw (e, sorted_map) tt
  | inr (es, e) ↦ rw (e, sorted_map) (sort-Sorted pair_leb-IsOrder (keep_some f es))
]
