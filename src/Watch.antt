-- ===== src/Watch.antt =====
-- src/watch.rs, and the backoff of a failed pull in src/cli/pull.rs. Durations are in seconds.
mod Backoff
mod Watermark
mod Tests
use Prim.Native.Nat.{min, max}
use figmog.Prelude.{ℕ, ◌*◌, Bool, true, false, Option, none, some, List, [], ◌∷◌}
use figmog.Prelude.Tests.{◌==◌, if◌then◌else◌}
use figmog.Prelude.Text.{Str, str_eq}
use figmog.Api.{Result, ok, err, ApiError, FileMetaResp, PullError, rate_limited, api}

abbrev pub backoff_start : ℕ
backoff_start = 5

abbrev pub backoff_cap : ℕ
backoff_cap = 300

-- `wait` carries the time to sleep before the next tick.
pub data Tick : Type 0 where
  unchanged changed : Tick
  wait : ℕ → Tick

pub record Watcher : Type 0 where
  pub last_seen : Option Str
  pub backoff : ℕ

abbrev pub new : Option Str → Watcher
new last_seen = record { last_seen = last_seen; backoff = backoff_start }

abbrev same_mark : Option Str → Str → Bool
same_mark none t = false
same_mark (some s) t = s == t

-- The answer of the meta endpoint is the argument.
unfoldable pub tick : Watcher → Result ApiError FileMetaResp → Tick × Watcher
tick w (ok meta) =
    if same_mark w.last_seen meta.last_touched_at
    then (unchanged, record w { backoff = backoff_start })
    else (changed, record { last_seen = some meta.last_touched_at; backoff = backoff_start })
tick w (err (rate_limited retry_after)) = (wait retry_after, w)
tick w (err _) = (wait w.backoff, record w { backoff = min (w.backoff * 2) backoff_cap })

-- The wait, and the backoff after it.
unfoldable pub pull_failure_wait : PullError → ℕ → ℕ → ℕ × ℕ
pull_failure_wait (api (rate_limited retry_after)) backoff interval =
    (max interval retry_after, backoff)
pull_failure_wait _ backoff interval = (backoff, min (backoff * 2) backoff_cap)

-- The watcher after a poll for each of the answers, and what the polls said.
unfoldable pub run : Watcher → List (Result ApiError FileMetaResp) → Watcher
unfolding tick
run w [] = w
run w (r ∷ rs) = run (tick w r).1 rs

unfoldable pub ticks : Watcher → List (Result ApiError FileMetaResp) → List Tick
unfolding tick
ticks w [] = []
ticks w (r ∷ rs) = (tick w r).0 ∷ ticks (tick w r).1 rs
