-- ===== src/Query/Search.antt =====
-- The ranked search of src/query.rs: `search`.
pub mod Laws
use figmog.Prelude.{
  ℕ, zero, suc, ◌-◌, ◌^◌, Bool, true, false, ◌&&◌, Option, none, some, List, [], ◌∷◌, map,
}
use figmog.Prelude.Tests.{ltb, leb, if◌then◌else◌}
use figmog.Prelude.Text.{Str, lit, str_eq}
use figmog.Prelude.Members.{member}
use figmog.Prelude.Filtering.{keep_if}
use figmog.Prelude.Lists.{take}
use figmog.Json.{Value, null, str, array, object}
use figmog.Model.{NodeRec}
use figmog.Api.{Result, ok, err, ◌>>=◌}
use figmog.Store.Stream.{filter_map}
use figmog.Query.Readers.{Readers}
use figmog.Query.Scope.{resolve_under}

-- A hit of the text index: its score, as it is printed, and the id of the node
abbrev pub Ranked : Type 0
Ranked = Value × Str

abbrev pub usize_max : ℕ
usize_max = 2 ^ 64 - 1

abbrev is_continuation : ℕ → Bool
is_continuation b = leb 0x80 b && ltb b 0xc0

-- `s.chars().take(n)`: a character is a byte that is no continuation, and those that continue it.
abbrev pub take_chars : ℕ → Str → Str
take_chars n [] = []
take_chars zero (b ∷ bs) =
    let more = take_chars zero bs in if is_continuation b then b ∷ more else []
take_chars (suc n) (b ∷ bs) =
    let same = take_chars (suc n) bs in
    let next = take_chars n bs in if is_continuation b then b ∷ same else b ∷ next

abbrev snippet : Option Str → Value
snippet none = null
snippet (some t) = str (take_chars 80 t)

abbrev hit_json : Value → NodeRec → Value
hit_json score n = object (
    (lit "id", str n.id)
    ∷ (lit "score", score)
    ∷ (lit "type", str n.node_type)
    ∷ (lit "name", str n.name)
    ∷ (lit "page_id", str n.page_id)
    ∷ (lit "snippet", snippet n.text)
    ∷ [])

abbrev pub ranked_row : Readers → Ranked → Option Value
ranked_row r (score, id) = elim (r.node id) [ none ↦ none | some n ↦ some (hit_json score n) ]

-- `scope.is_none_or(|s| s.contains(&hit.val))`
abbrev pub hit_in : Option (List Str) → Ranked → Bool
hit_in none hit = true
hit_in (some s) (_, id) = member id s

abbrev pub search_limit : Option (List Str) → ℕ → ℕ
search_limit none limit = limit
search_limit (some _) limit = usize_max

abbrev pub search_rows : Readers → Option (List Str) → ℕ → List Ranked → List Value
search_rows r scope limit hits =
    filter_map (ranked_row r) (take limit (keep_if (hit_in scope) hits))

-- `ranked` is `search` of the text index: the best hits for a query, as many as the limit.
unfoldable pub search : (Str → ℕ → List Ranked) → Readers → Str → ℕ → Option Str → Result Str Value
unfolding filter_map resolve_under
search ranked r query limit under = do
  scope ← resolve_under r under
  ok (array (search_rows r scope limit (ranked query (search_limit scope limit))))
