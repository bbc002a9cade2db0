-- ===== src/Serve.antt =====
-- src/serve.rs: the frames of the control socket, and the round of the watcher over the sessions.
pub mod Frames
pub mod Rounds
pub mod Routing
mod Tests
use Prim.Native.Nat.{min, max, ◌/◌}
use figmog.Prelude.{
  ℕ, ◌+◌, ◌*◌, ◌%◌, ◌^◌, Bool, true, false, ◌&&◌, Option, none, some, List, [], ◌∷◌,
}
use figmog.Prelude.Tests.{◌==◌, nat_eq, if◌then◌else◌}
use figmog.Prelude.Lists.{length}
use figmog.Prelude.Text.{Str, str_eq}
use figmog.Api.{Result, ok, err, ApiError, FileMetaResp}
use figmog.Watch.{Watcher, Tick, unchanged, changed, wait, tick}
use figmog.Pull.{PullOutcome}
use figmog.Sessions.{
  FileSession, SessionManager, World, session_of, set_session, do_pull, effective_default_key,
}

abbrev pub max_interval_secs : ℕ
max_interval_secs = 86400

unfoldable pub clamp_interval : ℕ → ℕ
clamp_interval interval = min interval max_interval_secs

-- Durations below are in nanoseconds, the precision of `Duration`.
abbrev pub one_second : ℕ
one_second = 1000000000

abbrev pub min_tick_deadline : ℕ
min_tick_deadline = 2 * one_second

unfoldable pub tick_deadline : ℕ → ℕ → ℕ
tick_deadline interval session_count =
    if session_count == 0
    then interval
    else max (interval / (session_count % 2 ^ 32)) min_tick_deadline

-- What one tick does beside its step: the time until the next one, the key whose file is polled, and
-- the key that is written to `.figmog/current`.
pub record TickEffect : Type 0 where
  pub deadline : ℕ
  pub polled : Option Str
  pub current : Option Str

abbrev pub Watching : Type 0
Watching = SessionManager × ℕ

abbrev pub refresh_current : SessionManager → Bool → Str → Option Str
refresh_current m track key =
    if track && is_default (effective_default_key m) then some key else none
  where
    is_default : Option Str → Bool
    is_default none = false
    is_default (some k) = k == key

abbrev pub idle : ℕ → TickEffect
idle interval = record { deadline = interval * one_second; polled = none; current = none }

abbrev pub pull_effect : SessionManager → Bool → Str → ℕ → Result (Str × ℕ) PullOutcome → TickEffect
pull_effect m track key deadline (ok outcome) = record {
  deadline = deadline;
  polled = some key;
  current = refresh_current m track key;
}
pull_effect m track key deadline (err (message, after)) = record {
  deadline = after * one_second;
  polled = some key;
  current = none;
}

-- The `match` on what the poll of the session at `idx` says.
abbrev pub polled_session :
    World → ℕ → Bool → SessionManager → ℕ → FileSession → ℕ → Tick → SessionManager × TickEffect
polled_session w interval track m idx s deadline unchanged = (
  record m { sessions = set_session idx s m.sessions },
  record { deadline = deadline; polled = some s.key; current = none },
)
polled_session w interval track m idx s deadline (wait after) = (
  record m { sessions = set_session idx s m.sessions },
  record { deadline = after * one_second; polled = some s.key; current = none },
)
polled_session w interval track m idx s deadline changed =
    let (s', answer) = do_pull w.print s (w.pulled s.key) (w.seen s.key) interval in
    let m' = record m { sessions = set_session idx s' m.sessions } in
    (m', pull_effect m' track s.key deadline answer)

abbrev pub tick_session :
    World
    → Result ApiError FileMetaResp
    → ℕ
    → Bool
    → SessionManager
    → ℕ
    → FileSession
    → SessionManager × TickEffect
tick_session w meta interval track m idx s =
    let (t, watcher) = tick s.watcher meta in
    let deadline = tick_deadline (interval * one_second) (length m.sessions) in
    polled_session w interval track m idx (record s { watcher = watcher }) deadline t

abbrev pub at_next : Watching → SessionManager × TickEffect → Watching × TickEffect
at_next (m, next_idx) (m', effect) = ((m', (next_idx + 1) % length m.sessions), effect)

-- `meta` is what the meta endpoint answers for a key, `interval` in seconds; there is a session at
-- `idx`.
unfoldable pub watch_tick :
    World
    → (Str → Result ApiError FileMetaResp)
    → ℕ
    → Bool
    → Option Str
    → Watching
    → Watching × TickEffect
unfolding tick_deadline tick do_pull set_session effective_default_key
watch_tick w meta interval track none (m, next_idx) = ((m, next_idx), idle interval)
watch_tick w meta interval track (some token) (m, next_idx) =
    let idx = next_idx % length m.sessions in
    elim (session_of idx m.sessions) [
      | none ↦ ((m, next_idx), idle interval)
      | some s ↦ at_next (m, next_idx) (tick_session w (meta s.key) interval track m idx s)
    ]
