-- ===== src/Serve/Rounds.antt =====
-- The rounds of `watch_tick` of src/serve.rs.
use mathlib.Core.Path.{subst}
use native.Mathlib.Nat.{mod-lt, mod-eq_of_lt, mod_self, mod-mod, mod-add-mod}
use mathlib.Core.Option.{some-injective}
use figmog.Prelude.{
  ℕ, zero, suc, ◌+◌, ◌-◌, ◌*◌, ◌%◌, ◌≤◌, ◌<◌, ◌≡◌, ◌⊎◌, inl, inr, refl, sym, ap, ◌∙◌, Bool, Option,
  none, some, List, [], ◌∷◌, arith,
}
use figmog.Prelude.Lists.{length}
use figmog.Prelude.Text.{Str}
use figmog.Prelude.Members.{In}
use figmog.Api.{Result, ok, err, ApiError, FileMetaResp}
use figmog.Watch.{Tick, unchanged, changed, wait, tick}
use figmog.Pull.{PullOutcome}
use figmog.Sessions.{FileSession, SessionManager, World, session_of, set_session, do_pull}
use figmog.Sessions.Opening.{keys}
use figmog.Sessions.Resolving.{keys-set_session, do_pull-key}
use figmog.Serve.{
  TickEffect, Watching, watch_tick, polled_session, tick_session, tick_deadline, one_second,
  pull_effect, at_next,
}

abbrev pub key_at : ℕ → List Str → Option Str
key_at i [] = none
key_at zero (k ∷ ks) = some k
key_at (suc i) (k ∷ ks) = key_at i ks

length-keys : (ss : List FileSession) → length (keys ss) ≡ length ss
length-keys [] = refl
length-keys (s ∷ ss) = ap (λ n. suc n) (length-keys ss)

key_at-session_of :
    (i : ℕ) (ss : List FileSession) (k : Str)
    → key_at i (keys ss) ≡ some k
    → (s : FileSession) × (session_of i ss ≡ some s) × (s.key ≡ k)
unfolding session_of
key_at-session_of i [] k h = cc
key_at-session_of zero (s ∷ ss) k h = (s, refl, some-injective s.key k h)
key_at-session_of (suc i) (s ∷ ss) k h = key_at-session_of i ss k h

key_at_within : (i : ℕ) (ks : List Str) → i < length ks → (k : Str) × (key_at i ks ≡ some k)
key_at_within i [] h = absurd (omega (arith, h))
key_at_within zero (k ∷ ks) h = (k, refl)
key_at_within (suc i) (k ∷ ks) h = key_at_within i ks (omega (arith, h))

session_of-key_at :
    (i : ℕ) (ss : List FileSession) (s : FileSession)
    → session_of i ss ≡ some s
    → (i < length (keys ss)) × (key_at i (keys ss) ≡ some s.key)
unfolding session_of
session_of-key_at i [] s h = cc
session_of-key_at zero (t ∷ ss) s h = (omega arith, ap (λ z. some z.key) (some-injective t s h))
session_of-key_at (suc i) (t ∷ ss) s h =
    let (l, e) = session_of-key_at i ss s h in (omega (arith, l), e)

le_cases : (a b : ℕ) → (a ≤ b) ⊎ (b < a)
le_cases a b = ground arith

-- The answers of one tick: of the pull, if there is one, and of the meta endpoint.
abbrev pub Answers : Type 0
Answers = World × (Str → Result ApiError FileMetaResp)

-- The manager has sessions of these keys, in this order, and the next tick is that of the position.
abbrev At : List Str → ℕ → Watching → Type 0
At ks r (m, next_idx) = (keys m.sessions ≡ ks) × (next_idx % length ks ≡ r)

pull_effect-polled :
    (m : SessionManager) (track : Bool) (key : Str) (deadline : ℕ)
    (answer : Result (Str × ℕ) PullOutcome)
    → (pull_effect m track key deadline answer).polled ≡ some key
pull_effect-polled m track key deadline (ok outcome) = refl
pull_effect-polled m track key deadline (err (message, after)) = refl

polled_session_lem :
    (w : World) (interval : ℕ) (track : Bool) (m : SessionManager) (idx : ℕ) (s t : FileSession)
    (deadline : ℕ) (seen : Tick)
    → session_of idx m.sessions ≡ some t
    → s.key ≡ t.key
    → ((polled_session w interval track m idx s deadline seen).1.polled ≡ some s.key)
      × (keys (polled_session w interval track m idx s deadline seen).0.sessions ≡ keys m.sessions)
polled_session_lem w interval track m idx s t deadline unchanged at e =
    (refl, keys-set_session m.sessions idx s t at e)
polled_session_lem w interval track m idx s t deadline (wait after) at e =
    (refl, keys-set_session m.sessions idx s t at e)
polled_session_lem w interval track m idx s t deadline changed at e =
    let pulled = do_pull w.print s (w.pulled s.key) (w.seen s.key) interval in
    (
      pull_effect-polled (record m { sessions = set_session idx pulled.0 m.sessions }) track s.key
          deadline pulled.1,
      keys-set_session m.sessions idx pulled.0 t at
          (do_pull-key w s (w.pulled s.key) (w.seen s.key) interval ∙ e),
    )

watch_tick_session :
    (w : World) (meta : Str → Result ApiError FileMetaResp) (interval : ℕ) (track : Bool)
    (token : Str) (m : SessionManager) (next_idx : ℕ) (s : FileSession)
    → session_of (next_idx % length m.sessions) m.sessions ≡ some s
    → watch_tick w meta interval track (some token) (m, next_idx)
      ≡ at_next
          (m, next_idx)
          (tick_session w (meta s.key) interval track m (next_idx % length m.sessions) s)
unfolding watch_tick
watch_tick_session w meta interval track token m next_idx s h = rw (h, watch_tick) refl

abbrev Stepped : List Str → ℕ → Str → Watching × TickEffect → Type 0
Stepped ks r k (st, effect) = (effect.polled ≡ some k) × At ks ((r + 1) % length ks) st

-- A tick polls the file whose turn it is, and the next tick is that of the one after it.
watch_tick_lem :
    (answers : Answers) (interval : ℕ) (track : Bool) (token : Str) (st : Watching) (ks : List Str)
    (r : ℕ) (k : Str)
    → At ks r st
    → key_at r ks ≡ some k
    → Stepped ks r k (watch_tick answers.0 answers.1 interval track (some token) st)
watch_tick_lem (w, meta) interval track token (m, next_idx) ks r k (keyed, turn) h =
    let n : length ks ≡ length m.sessions =
      ap (λ z. length z) (sym keyed) ∙ length-keys m.sessions in
    let turn' : next_idx % length m.sessions ≡ r = ap (λ z. next_idx % z) (sym n) ∙ turn in
    let (s, at, named) = key_at-session_of r m.sessions k (ap (λ z. key_at r z) keyed ∙ h) in
    let (t, watcher) = tick s.watcher (meta s.key) in
    let idx = next_idx % length m.sessions in
    let found : session_of idx m.sessions ≡ some s = ap (λ z. session_of z m.sessions) turn' ∙ at in
    let deadline = tick_deadline (interval * one_second) (length m.sessions) in
    let (polled, kept) =
      polled_session_lem w interval track m idx (record s { watcher = watcher }) s deadline t found
        refl in
    let next : (next_idx + 1) % length m.sessions % length ks ≡ (r + 1) % length ks =
      ap (λ z. (next_idx + 1) % z % length ks) (sym n)
      ∙ mod-mod (next_idx + 1) (length ks)
      ∙ sym (mod-add-mod next_idx (length ks) 1)
      ∙ ap (λ z. (z + 1) % length ks) turn in
    subst (Stepped ks r k) (sym (watch_tick_session w meta interval track token m next_idx s found))
      (polled ∙ ap (λ z. some z) named, (kept ∙ keyed, next))

-- The keys that a run of ticks polls, one tick after the other, each with its answers.
abbrev pub watch_run : ℕ → Bool → Str → List Answers → Watching → List (Option Str)
watch_run interval track token [] st = []
watch_run interval track token (answers ∷ run) st =
    let (st', effect) = watch_tick answers.0 answers.1 interval track (some token) st in
    effect.polled ∷ watch_run interval track token run st'

module _ (interval : ℕ) (track : Bool) (token : Str) (ks : List Str) (i : ℕ) (k : Str)
    (at_i : key_at i ks ≡ some k) (within : i < length ks) where
  -- The turn comes without passing the end of the list.
  polled_ahead :
      (d r : ℕ) (run : List Answers) (st : Watching)
      → r + d ≡ i
      → d < length run
      → At ks r st
      → In (some k) (watch_run interval track token run st)
  polled_ahead d r [] st e l a = absurd (omega (arith, l))
  polled_ahead zero r (answers ∷ run) st e l a =
      let (polled, next) =
        watch_tick_lem answers interval track token st ks r k a
          (ap (λ z. key_at z ks) (omega (arith, e)) ∙ at_i) in
      inl (sym polled)
  polled_ahead (suc d) r (answers ∷ run) st e l a =
      let (j, at_r) = key_at_within r ks (omega (arith, e, within)) in
      let (polled, (keyed, next)) = watch_tick_lem answers interval track token st ks r j a at_r in
      let step : (r + 1) % length ks ≡ r + 1 = mod-eq_of_lt (omega (arith, e, within)) in
      inr (
        polled_ahead d (r + 1) run (watch_tick answers.0 answers.1 interval track (some token) st).0
          (omega (arith, e)) (omega (arith, l)) (keyed, next ∙ step))

  -- The turn comes after the end of the list.
  polled_around :
      (e r : ℕ) (run : List Answers) (st : Watching)
      → r + suc e ≡ length ks
      → suc e + i < length run
      → At ks r st
      → In (some k) (watch_run interval track token run st)
  polled_around e r [] st h l a = absurd (omega (arith, l))
  polled_around zero r (answers ∷ run) st h l a =
      let (j, at_r) = key_at_within r ks (omega (arith, h)) in
      let (polled, (keyed, next)) = watch_tick_lem answers interval track token st ks r j a at_r in
      let last : r + 1 ≡ length ks = omega (arith, h) in
      let step : (r + 1) % length ks ≡ 0 = ap (λ z. z % length ks) last ∙ mod_self (length ks) in
      inr (
        polled_ahead i 0 run (watch_tick answers.0 answers.1 interval track (some token) st).0
          (omega arith) (omega (arith, l)) (keyed, next ∙ step))
  polled_around (suc e) r (answers ∷ run) st h l a =
      let (j, at_r) = key_at_within r ks (omega (arith, h)) in
      let (polled, (keyed, next)) = watch_tick_lem answers interval track token st ks r j a at_r in
      let step : (r + 1) % length ks ≡ r + 1 = mod-eq_of_lt (omega (arith, h)) in
      inr (
        polled_around e (r + 1) run
          (watch_tick answers.0 answers.1 interval track (some token) st).0 (omega (arith, h))
          (omega (arith, l)) (keyed, next ∙ step))

-- In any run of at least as many ticks as there are sessions, whatever the polls and the pulls answer
-- and wherever the round stands, the file of every session is polled.
pub watch_run-In :
    (interval : ℕ) (track : Bool) (token : Str) (m : SessionManager) (next_idx : ℕ)
    (run : List Answers) (i : ℕ) (s : FileSession)
    → session_of i m.sessions ≡ some s
    → length m.sessions ≤ length run
    → In (some s.key) (watch_run interval track token run (m, next_idx))
watch_run-In interval track token m next_idx run i s h l =
    let ks = keys m.sessions in
    let n : length ks ≡ length m.sessions = length-keys m.sessions in
    let (within, at_i) = session_of-key_at i m.sessions s h in
    let r = next_idx % length ks in
    let below : r < length ks = mod-lt next_idx (omega (arith, within)) in
    elim (le_cases r i) [
      | inl a ↦
          polled_ahead interval track token ks i s.key at_i within (i - r) r run (m, next_idx)
            (omega (arith, a)) (omega (arith, within, n, l)) (refl, refl)
      | inr b ↦
          polled_around interval track token ks i s.key at_i within (length ks - suc r) r run
            (m, next_idx) (omega (arith, below)) (omega (arith, b, below, n, l)) (refl, refl)
    ]
