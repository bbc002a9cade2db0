-- ===== src/Query/Search/Laws.antt =====
-- What `search` of src/query.rs answers, against the whole ranking.
use figmog.Prelude.{ℕ, suc, ◌≤◌, ◌≡◌, Option, none, some, List, [], ◌∷◌}
use figmog.Prelude.Text.{Str, str_eq}
use figmog.Prelude.Lists.{length, take}
use figmog.Ident.{normalize_node_ref}
use figmog.Query.Readers.{Readers}
use figmog.Query.Scope.Reachable.{Reach}
use figmog.Query.Search.{Ranked, usize_max}

-- What a ranking index promises: the limit only cuts the ranking of the corpus, which is not longer
-- than a length can be.
pub record IsRanking (ranked : Str → ℕ → List Ranked) (corpus : Str → List Ranked) : Type 0 where
  pub cut : (query : Str) (limit : ℕ) → ranked query limit ≡ take limit (corpus query)
  pub fits : (query : Str) → length (corpus query) ≤ usize_max

-- A hit on a node below the scope, where one is given
abbrev pub Scoped : Readers → Option Str → Ranked → Type 0
Scoped r none hit = Unit
Scoped r (some raw) (_, id) = Reach r.children (normalize_node_ref raw) id

-- The first hits for which P holds, as many as the limit, or all of them if there are fewer
pub data Best (P : Ranked → Type 0) : ℕ → List Ranked → List Ranked → Type 0 where
  full : (hits : List Ranked) → Best P 0 hits []
  ended : (limit : ℕ) → Best P limit [] []
  taken :
      (limit : ℕ) (hit : Ranked) (hits out : List Ranked)
      → P hit
      → Best P limit hits out
      → Best P (suc limit) (hit ∷ hits) (hit ∷ out)
  passed :
      (limit : ℕ) (hit : Ranked) (hits out : List Ranked)
      → ¬ P hit
      → Best P limit hits out
      → Best P limit (hit ∷ hits) out
