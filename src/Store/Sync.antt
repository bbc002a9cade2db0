-- ===== src/Store/Sync.antt =====
-- src/store.rs: one sync of a flattened file.
pub mod Result
pub mod Mirror
pub mod Again
use figmog.Prelude.{ℕ, ◌+◌, Bool, true, false, not, Option, none, some, List, [], ◌∷◌, ◌++◌, map}
use figmog.Prelude.Tests.{◌==◌, if◌then◌else◌}
use figmog.Prelude.Text.{Str}
use figmog.Prelude.Members.{member}
use figmog.Model.{RecId, Rec, FileMeta}
use figmog.Model.Keys.{id_eq}
use figmog.Flatten.File.{Flattened}
use figmog.Store.Stream.{KeyedStream, filter_map}
use figmog.Store.Branches.{
  node_only, component_only, component_set_only, style_only, variable_only, collection_only,
}

pub record Churn : Type 0 where
  pub added : ℕ
  pub changed : ℕ
  pub removed : ℕ
  pub unchanged : ℕ

abbrev pub no_churn : Churn
no_churn = record { added = 0; changed = 0; removed = 0; unchanged = 0 }

-- The match on what `tx.upsert` returns; `same` is the derived `==` of `Rec`.
abbrev pub count_upsert : (Rec → Rec → Bool) → Option Rec → Rec → Churn → Churn
count_upsert same none rec churn = record churn { added = churn.added + 1 }
count_upsert same (some old) rec churn =
    if same old rec
    then record churn { unchanged = churn.unchanged + 1 }
    else record churn { changed = churn.changed + 1 }

abbrev pub count_removal : Option Rec → Churn → Churn
count_removal none churn = churn
count_removal (some _) churn = record churn { removed = churn.removed + 1 }

abbrev pub ids : List (RecId × Rec) → List RecId
ids [] = []
ids ((id, _) ∷ recs) = id ∷ ids recs

abbrev pub meta_rec : Flattened → ℕ → Rec
meta_rec flattened now = Rec.meta (record {
  name = flattened.file.name;
  version = flattened.file.version;
  last_modified = flattened.file.last_modified;
  synced_at_unix_ms = now;
})

module _ (fold : KeyedStream) (same : Rec → Rec → Bool) where
  open fold use {State, upsert, remove, rows}

  unfoldable pub upsert_all : State → List (RecId × Rec) → Churn → State × Churn
  upsert_all st [] churn = (st, churn)
  upsert_all st ((id, rec) ∷ recs) churn =
      let (old, st') = upsert st id rec in upsert_all st' recs (count_upsert same old rec churn)

  unfoldable pub sweep : State → List RecId → List RecId → Churn → State × Churn
  sweep st [] live churn = (st, churn)
  sweep st (id ∷ prior) live churn = elim (member id live) [
    | true ↦ sweep st prior live churn
    | false ↦ let (old, st') = remove st id in sweep st' prior live (count_removal old churn)
  ]

  unfoldable pub sync : State → List RecId → Flattened → ℕ → State × Churn
  unfolding upsert_all sweep
  sync st prior flattened now =
      let (st₁, churn) = upsert_all st flattened.recs no_churn in
      let (_, st₂) = upsert st₁ RecId.meta (meta_rec flattened now) in
      sweep st₂ prior (ids flattened.recs) churn

module _ (fold : KeyedStream) where
  open fold use {State, rows}

  abbrev pub node_ids : State → List RecId
  node_ids st = map (λ r. RecId.node r.0) (filter_map node_only (rows st))

  abbrev pub component_ids : State → List RecId
  component_ids st = map (λ r. RecId.component r.0) (filter_map component_only (rows st))

  abbrev pub component_set_ids : State → List RecId
  component_set_ids st =
      map (λ r. RecId.component_set r.0) (filter_map component_set_only (rows st))

  abbrev pub style_ids : State → List RecId
  style_ids st = map (λ r. RecId.style r.0) (filter_map style_only (rows st))

  unfoldable pub collect_sweepable : State → List RecId
  collect_sweepable st = node_ids st ++ (component_ids st ++ (component_set_ids st ++ style_ids st))

  unfoldable pub collect_variable_ids : State → List RecId
  unfolding filter_map
  collect_variable_ids st =
      map (λ r. RecId.variable r.0) (filter_map variable_only (rows st))
      ++ map (λ r. RecId.variable_collection r.0) (filter_map collection_only (rows st))
