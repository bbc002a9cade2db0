-- ===== src/Watch/Watermark.antt =====
-- When a poll reports a change.
use figmog.Prelude.{◌≡◌, ◌≢◌, ◌↔◌, refl, ap, ◌∙◌, true, Option, none, some, List, [], ◌∷◌, arith}
use figmog.Prelude.Text.{Str, str_eq, str_beq_iff}
use figmog.Api.{Result, ok, err, ApiError, FileMetaResp, rate_limited}
use figmog.Watch.{Watcher, unchanged, changed, tick, run, same_mark}

-- The modification time that was answered last, if any was, after the one at the start.
abbrev pub latest : Option Str → List (Result ApiError FileMetaResp) → Option Str
latest seen [] = seen
latest seen (ok meta ∷ rs) = latest (some meta.last_touched_at) rs
latest seen (err _ ∷ rs) = latest seen rs

same_mark_iff : (seen : Option Str) (t : Str) → (same_mark seen t ≡ true) ↔ (seen ≡ some t)
same_mark_iff none t = ground arith
same_mark_iff (some s) t = ground (arith, str_beq_iff s t)

tick-last_seen :
    (w : Watcher) (meta : FileMetaResp) → (tick w (ok meta)).1.last_seen ≡ some meta.last_touched_at
unfolding tick
tick-last_seen w meta = ground (arith, same_mark_iff w.last_seen meta.last_touched_at)

tick-err-last_seen : (w : Watcher) (e : ApiError) → (tick w (err e)).1.last_seen ≡ w.last_seen
unfolding tick
tick-err-last_seen w (rate_limited _) = refl
tick-err-last_seen w _ = refl

run-last_seen :
    (w : Watcher) (rs : List (Result ApiError FileMetaResp))
    → (run w rs).last_seen ≡ latest w.last_seen rs
unfolding run
run-last_seen w [] = refl
run-last_seen w (ok meta ∷ rs) =
    run-last_seen (tick w (ok meta)).1 rs ∙ ap (λ s. latest s rs) (tick-last_seen w meta)
run-last_seen w (err e ∷ rs) =
    run-last_seen (tick w (err e)).1 rs ∙ ap (λ s. latest s rs) (tick-err-last_seen w e)

-- After any polls, a poll that is answered reports a change exactly when the answer differs from the
-- modification time answered last, errors between them set aside; otherwise it reports none.
pub tick-changed_iff :
    (w : Watcher) (rs : List (Result ApiError FileMetaResp)) (meta : FileMetaResp)
    → (((tick (run w rs) (ok meta)).0 ≡ changed)
        ↔ (latest w.last_seen rs ≢ some meta.last_touched_at))
      × (((tick (run w rs) (ok meta)).0 ≡ unchanged)
          ↔ (latest w.last_seen rs ≡ some meta.last_touched_at))
unfolding tick
tick-changed_iff w rs meta =
    rw (← run-last_seen w rs)
      (ground (arith, same_mark_iff (run w rs).last_seen meta.last_touched_at))
