-- ===== src/Serve/Tests.antt =====
-- `read_bounded_line` and `watch_tick` of src/serve.rs at small inputs.
use figmog.Prelude.{◌*◌, ◌≡◌, refl, false, none, some, [], ◌∷◌, ◌++◌, arith}
use figmog.Prelude.Lists.{All}
use figmog.Prelude.Text.{lit, str_beq, split_once}
use figmog.Prelude.Members.{In}
use figmog.Api.{ok, err, rate_limited}
use figmog.Store.Sync.{no_churn}
use figmog.Sessions.{SessionManager, session_at, session_of}
use figmog.Serve.{clamp_interval, tick_deadline, one_second}
use figmog.Serve.Frames.{Reader, read_bounded_line}
use figmog.Serve.Frames.Laws.{Arrives, joined, first_frame, read_bounded_line_lem}
use figmog.Serve.Rounds.{Answers, watch_run, watch_run-In}

clamps : clamp_interval 100000 ≡ 86400
unfolding clamp_interval
clamps = refl

splits_the_interval : tick_deadline (10 * one_second) 4 ≡ 2500000000
unfolding tick_deadline
splits_the_interval = refl

floored : tick_deadline (10 * one_second) 100 ≡ 2 * one_second
unfolding tick_deadline
floored = refl

-- Two frames in two reads, cut inside the first.
abbrev reader : Reader
reader = ok (lit "pi") ∷ ok (lit "ng" ++ (13 ∷ 10 ∷ lit "x")) ∷ []

reads_one : read_bounded_line reader ≡ (ok (some (lit "ping")), ok (lit "x") ∷ [])
unfolding read_bounded_line str_beq split_once figmog.Ident.from_utf8_lossy
reads_one = refl

read_bounded_line_lem_example :
    ((read_bounded_line reader).0 ≡ (first_frame (joined reader)).0)
    × (joined (read_bounded_line reader).1 ≡ (first_frame (joined reader)).1)
    × All Arrives (read_bounded_line reader).1
read_bounded_line_lem_example = read_bounded_line_lem reader (tt, (tt, tt)) (omega arith)

abbrev manager : SessionManager
manager = record {
  sessions = session_at (lit "a") none ∷ session_at (lit "b") none ∷ [];
  default_key = none;
}

abbrev answers : Answers
answers = (
  record {
    stored = λ key. ok none;
    pulled = λ key. ok (record { churn = no_churn; name = lit "F"; version = lit "1" });
    seen = λ key. none;
    print = λ e. [];
  },
  λ key. err (rate_limited 7),
)

watch_run-In_example :
    In (some (lit "a")) (watch_run 60 false (lit "token") (answers ∷ answers ∷ []) (manager, 1))
unfolding session_of
watch_run-In_example =
    watch_run-In 60 false (lit "token") manager 1 (answers ∷ answers ∷ []) 0
      (session_at (lit "a") none) refl (omega arith)
