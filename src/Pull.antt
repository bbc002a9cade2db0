-- ===== src/Pull.antt =====
-- One pull of a file into its mirror: the pull closure of `open_session_at` in src/sessions.rs.
pub mod Laws
mod Tests
use figmog.Prelude.{ℕ, Bool, true, false, ◌||◌, Option, none, some, List, [], ◌∷◌, ◌++◌}
use figmog.Prelude.Text.{Str, lit}
use figmog.Json.{Value, Serde}
use figmog.Model.{RecId, Rec}
use figmog.Api.{Result, ok, err, ◌>>=◌, ApiError, PullError, api, other}
use figmog.Flatten.File.{Flattened, FlattenError, missing, flatten_file}
use figmog.Store.Stream.{KeyedStream}
use figmog.Store.Sync.{Churn, sync, collect_sweepable, collect_variable_ids}
use figmog.Store.Evict.{
  stale_cache_ids, stale_image_ids, evict_stale_cache, read_geometry, upsert_mirror_config,
  effective_geometry,
}
use figmog.Vars.{ImportError, shape, parse_variables_export}

pub record PullOutcome : Type 0 where
  pub churn : Churn
  pub name : Str
  pub version : Str

-- The two requests for one file: `file` is given the geometry flag.
pub record FigmaApi : Type 0 where
  pub file : Bool → Result ApiError Value
  pub variables_local : Result ApiError (Option Value)

abbrev pub lift_api {ℓ} : {A : Type ℓ} → Result ApiError A → Result PullError A
lift_api (ok a) = ok a
lift_api (err e) = err (api e)

abbrev pub lift_flatten {ℓ} : {A : Type ℓ} → Result FlattenError A → Result PullError A
lift_flatten (ok a) = ok a
lift_flatten (err (missing k)) = err (other (lit "missing field: " ++ k))

abbrev pub lift_import {ℓ} : {A : Type ℓ} → Result ImportError A → Result PullError A
lift_import (ok a) = ok a
lift_import (err (shape s)) = err (other (lit "unrecognized variables export shape: " ++ s))

abbrev pub present {ℓ} : {A : Type ℓ} → Str → Option A → Result PullError A
present message none = err (other message)
present message (some a) = ok a

-- the dash is U+2014
abbrev token_missing : Str
token_missing =
    lit "FIGMA_TOKEN not set " ++ (0xe2 ∷ 0x80 ∷ 0x94 ∷ lit " required for network pulls")

module _ (sd : Serde) (fold : KeyedStream) (same : Rec → Rec → Bool) where
  open fold use {State}

  -- The records to write, and the ids that are swept unless they are among them.
  unfoldable pub prepare :
      State → Option Value → Flattened → Result PullError (Flattened × List RecId)
  unfolding collect_sweepable collect_variable_ids parse_variables_export
  prepare st none flattened = ok (flattened, collect_sweepable fold st)
  prepare st (some v) flattened = do
    var_recs ← lift_import (parse_variables_export sd v)
    ok (
      record flattened { recs = flattened.recs ++ var_recs },
      collect_sweepable fold st ++ collect_variable_ids fold st,
    )

  -- The writes: the sync, the eviction of what is not of the version synced, and the geometry flag.
  -- `stale.sort()` fixes the order of the removals, which is the collected one here; with nothing
  -- stale, nothing is removed.
  unfoldable pub write : State → Flattened → List RecId → ℕ → Bool → State × PullOutcome
  unfolding sync stale_cache_ids stale_image_ids evict_stale_cache upsert_mirror_config
  write st flattened prior now request_geometry =
      let (st₁, churn) = sync fold same st prior flattened now in
      let version = flattened.file.version in
      let stale = stale_cache_ids fold st₁ version ++ stale_image_ids fold st₁ version in
      let st₂ = evict_stale_cache fold st₁ stale in
      (
        upsert_mirror_config fold st₂ request_geometry,
        record { churn = churn; name = flattened.file.name; version = version },
      )

  -- On an error nothing has been written: the state is that from before.
  unfoldable pub pull :
      State → Option Str → Option Str → Bool → FigmaApi → ℕ → Result PullError (State × PullOutcome)
  unfolding prepare write read_geometry flatten_file
  pull st network_key token geometry_override figma now = do
    key ← present (lit "no file key: pass a file key or figma.com URL") network_key
    secret ← present token_missing token
    let request_geometry = effective_geometry geometry_override (read_geometry fold st)
    resp ← lift_api (figma.file request_geometry)
    vars_resp ← lift_api figma.variables_local
    flattened ← lift_flatten (flatten_file sd resp)
    (flattened', prior) ← prepare st vars_resp flattened
    ok (write st flattened' prior now request_geometry)
