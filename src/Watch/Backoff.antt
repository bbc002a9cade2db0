-- ===== src/Watch/Backoff.antt =====
-- The waits between polls of src/watch.rs, and after a failed pull in src/cli/pull.rs.
use Prim.Native.Nat.{min}
use figmog.Prelude.{ℕ, zero, suc, ◌*◌, ◌≤◌, ◌≡◌, ◌⊎◌, inl, inr, refl, ap, List, [], ◌∷◌, arith}
use figmog.Prelude.Lists.{length}
use figmog.Prelude.Text.{str_eq}
use figmog.Api.{
  Result, ok, err, ApiError, FileMetaResp, PullError, rate_limited, auth, http, network, parse, api,
  other,
}
use figmog.Watch.{
  Watcher, Tick, wait, tick, run, ticks, backoff_start, backoff_cap, pull_failure_wait,
}

pub record InBounds (w : Watcher) : Type 0 where
  pub low : backoff_start ≤ w.backoff
  pub high : w.backoff ≤ backoff_cap

tick-InBounds :
    (w : Watcher) (r : Result ApiError FileMetaResp) → InBounds w → InBounds (tick w r).1
unfolding tick
tick-InBounds w (ok meta) b = ground arith
tick-InBounds w (err (rate_limited t)) b = b
tick-InBounds w (err _) b = omega arith

-- From a backoff between five seconds and five minutes, the backoff stays between them, whatever
-- the meta endpoint answers and however often.
pub run-InBounds :
    (w : Watcher) (rs : List (Result ApiError FileMetaResp)) → InBounds w → InBounds (run w rs)
unfolding run
run-InBounds w [] b = b
run-InBounds w (r ∷ rs) b = run-InBounds (tick w r).1 rs (tick-InBounds w r b)

-- An error that is not a rate limit.
abbrev pub IsFailure : Result ApiError FileMetaResp → Type 0
IsFailure (ok _) = ⊥
IsFailure (err (rate_limited _)) = ⊥
IsFailure (err _) = Unit

abbrev pub waits : ℕ → ℕ → List Tick
waits n zero = []
waits n (suc k) = wait (min n backoff_cap) ∷ waits (n * 2) k

abbrev pub AllFailures : List (Result ApiError FileMetaResp) → Type 0
AllFailures [] = Unit
AllFailures (r ∷ rs) = IsFailure r × AllFailures rs

tick-IsFailure :
    (w : Watcher) (r : Result ApiError FileMetaResp)
    → IsFailure r
    → tick w r ≡ (wait w.backoff, record w { backoff = min (w.backoff * 2) backoff_cap })
unfolding tick
tick-IsFailure w (ok _) h = absurd h
tick-IsFailure w (err (rate_limited _)) h = absurd h
tick-IsFailure w (err _) h = refl

-- From a backoff that is a number of seconds or the cap, whichever is less, failures in a row are
-- answered by waits that double from that number, up to the cap.
pub ticks-failures :
    (n : ℕ) (w : Watcher) (rs : List (Result ApiError FileMetaResp))
    → w.backoff ≡ min n backoff_cap
    → AllFailures rs
    → ticks w rs ≡ waits n (length rs)
unfolding ticks
ticks-failures n w [] e h = refl
ticks-failures n w (r ∷ rs) e (f, h) = rw (tick-IsFailure w r f) (
    rw e (
      ap (◌∷◌ (wait (min n backoff_cap))) (
        ticks-failures (n * 2) (record w { backoff = min (min n backoff_cap * 2) backoff_cap }) rs
          (omega arith) h)))

-- From a backoff within its bounds, the backoff after a failed pull is within them as well; and
-- the wait is the backoff, or else it is at least the normal interval and the backoff stays as it
-- was.
pub pull_failure_wait_bounds :
    (e : PullError) (backoff interval : ℕ)
    → backoff_start ≤ backoff
    → backoff ≤ backoff_cap
    → (backoff_start ≤ (pull_failure_wait e backoff interval).1)
      × ((pull_failure_wait e backoff interval).1 ≤ backoff_cap)
      × (((pull_failure_wait e backoff interval).0 ≡ backoff)
          ⊎ ((interval ≤ (pull_failure_wait e backoff interval).0)
              × ((pull_failure_wait e backoff interval).1 ≡ backoff)))
unfolding pull_failure_wait
pull_failure_wait_bounds (api (rate_limited t)) b i h k = (h, k, inr (omega arith, refl))
pull_failure_wait_bounds (api auth) b i h k = (omega arith, omega arith, inl refl)
pull_failure_wait_bounds (api (http s m)) b i h k = (omega arith, omega arith, inl refl)
pull_failure_wait_bounds (api (network m)) b i h k = (omega arith, omega arith, inl refl)
pull_failure_wait_bounds (api (parse m)) b i h k = (omega arith, omega arith, inl refl)
pull_failure_wait_bounds (other m) b i h k = (omega arith, omega arith, inl refl)
