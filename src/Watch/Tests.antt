-- ===== src/Watch/Tests.antt =====
-- The unit tests of src/watch.rs, and the properties of the watcher at a short run of polls.
use figmog.Prelude.{◌≡◌, ◌≢◌, ◌↔◌, refl, none, some, List, [], ◌∷◌, arith}
use figmog.Prelude.Text.{Str, lit, str_beq}
use figmog.Api.{Result, ok, err, ApiError, FileMetaResp, rate_limited, network}
use figmog.Watch.{unchanged, changed, wait, new, tick, run, ticks}
use figmog.Watch.Backoff.{InBounds, run-InBounds}
use figmog.Watch.Watermark.{latest, tick-changed_iff}

abbrev meta_at : Str → FileMetaResp
meta_at t = record { name = lit "F"; last_touched_at = t }

abbrev answered : Str → Result ApiError FileMetaResp
answered t = ok (meta_at t)

abbrev down : Result ApiError FileMetaResp
down = err (network (lit "down"))

emits_changed_then_unchanged :
    ticks (new none) (answered (lit "t1") ∷ answered (lit "t1") ∷ answered (lit "t2") ∷ [])
    ≡ changed ∷ unchanged ∷ changed ∷ []
unfolding ticks str_beq
emits_changed_then_unchanged = refl

rate_limit_yields_retry_after : tick (new none) (err (rate_limited 42)) ≡ (wait 42, new none)
unfolding tick
rate_limit_yields_retry_after = refl

network_errors_back_off_and_reset :
    ticks (new none) (down ∷ down ∷ answered (lit "t1") ∷ down ∷ [])
    ≡ wait 5 ∷ wait 10 ∷ changed ∷ wait 5 ∷ []
unfolding ticks
network_errors_back_off_and_reset = refl

backoff_caps_at_five_minutes :
    ticks (new none) (down ∷ down ∷ down ∷ down ∷ down ∷ down ∷ down ∷ down ∷ [])
    ≡ wait 5 ∷ wait 10 ∷ wait 20 ∷ wait 40 ∷ wait 80 ∷ wait 160 ∷ wait 300 ∷ wait 300 ∷ []
unfolding ticks
backoff_caps_at_five_minutes = refl

new-InBounds : InBounds (new none)
new-InBounds = record { low = omega arith; high = omega arith }

run-InBounds_example :
    InBounds (run (new none) (down ∷ err (rate_limited 42) ∷ answered (lit "t1") ∷ []))
run-InBounds_example =
    run-InBounds (new none) (down ∷ err (rate_limited 42) ∷ answered (lit "t1") ∷ []) new-InBounds

abbrev polls : List (Result ApiError FileMetaResp)
polls = answered (lit "t1") ∷ down ∷ []

tick-changed_iff_example :
    (((tick (run (new none) polls) (answered (lit "t2"))).0 ≡ changed)
      ↔ (latest none polls ≢ some (lit "t2")))
    × (((tick (run (new none) polls) (answered (lit "t2"))).0 ≡ unchanged)
        ↔ (latest none polls ≡ some (lit "t2")))
tick-changed_iff_example = tick-changed_iff (new none) polls (meta_at (lit "t2"))
