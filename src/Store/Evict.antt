-- ===== src/Store/Evict.antt =====
-- src/store.rs: stale cache rows and images, and the sticky geometry flag.
pub mod Laws
pub mod Geometry
use figmog.Prelude.{ℕ, Bool, true, false, not, ◌||◌, Option, none, some, List, [], ◌∷◌, map}
use figmog.Prelude.Tests.{◌==◌, if◌then◌else◌}
use figmog.Prelude.Filtering.{keep_if}
use figmog.Prelude.Text.{Str, str_eq}
use figmog.Model.{RecId, Rec, ProxyCacheRec, ImageBlobRec, MirrorConfigRec}
use figmog.Store.Stream.{KeyedStream, filter_map}
use figmog.Store.Branches.{proxy_cache_only, image_only, mirror_config_only}

-- `cfg.get(&0)`: the table has one key
abbrev pub first_geometry : List (ℕ × MirrorConfigRec) → Bool
first_geometry [] = false
first_geometry ((_, c) ∷ _) = c.geometry

module _ (fold : KeyedStream) where
  open fold use {State, upsert, remove, rows}

  unfoldable pub stale_cache_ids : State → Str → List RecId
  unfolding filter_map
  stale_cache_ids st current =
      map (λ r. RecId.proxy_cache r.0)
        (keep_if (λ r. not (r.1.file_version == current)) (filter_map proxy_cache_only (rows st)))

  unfoldable pub stale_image_ids : State → Str → List RecId
  unfolding filter_map
  stale_image_ids st current =
      map (λ r. RecId.image_blob r.0)
        (keep_if (λ r. not (r.1.file_version == current)) (filter_map image_only (rows st)))

  unfoldable pub evict_stale_cache : State → List RecId → State
  evict_stale_cache st [] = st
  evict_stale_cache st (id ∷ stale) = evict_stale_cache (remove st id).1 stale

  unfoldable pub read_geometry : State → Bool
  unfolding filter_map
  read_geometry st = first_geometry (filter_map mirror_config_only (rows st))

  unfoldable pub upsert_mirror_config : State → Bool → State
  upsert_mirror_config st geometry =
      (upsert st RecId.mirror_config (Rec.mirror_config (record { geometry = geometry }))).1

abbrev pub effective_geometry : Bool → Bool → Bool
effective_geometry flag stored = flag || stored
