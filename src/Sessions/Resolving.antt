-- ===== src/Sessions/Resolving.antt =====
-- `SessionManager::resolve` of src/sessions.rs.
use mathlib.Core.Path.{subst}
use mathlib.Core.Option.{some-injective}
use figmog.Prelude.{
  ℕ, zero, suc, ◌≡◌, ◌⊎◌, inl, inr, refl, sym, ap, ◌∙◌, true, false, Option, none, some, List, [],
  ◌∷◌,
}
use figmog.Prelude.Tests.{if◌then◌else◌, Bool-cases}
use figmog.Prelude.Text.{Str, str_eq}
use figmog.Prelude.Members.{Distinct}
use figmog.Ident.{parse_file_ref}
use figmog.Api.{Result, ok, err, PullError}
use figmog.Pull.{PullOutcome}
use figmog.Sessions.{
  FileSession, SessionManager, session_of, set_session, open_file, World, Resolved, resolve,
  resolve_at, resolve_opened, do_pull, note_pull_success, pull_answer,
}
use figmog.Sessions.Opening.{keys, Opened, open_file_lem}

set_session-session_of :
    (sessions : List FileSession) (i : ℕ) (s t : FileSession)
    → session_of i sessions ≡ some t
    → session_of i (set_session i s sessions) ≡ some s
unfolding session_of set_session
set_session-session_of [] i s t h = cc
set_session-session_of (u ∷ rest) zero s t h = refl
set_session-session_of (u ∷ rest) (suc i) s t h = set_session-session_of rest i s t h

pub keys-set_session :
    (sessions : List FileSession) (i : ℕ) (s t : FileSession)
    → session_of i sessions ≡ some t
    → s.key ≡ t.key
    → keys (set_session i s sessions) ≡ keys sessions
unfolding session_of set_session
keys-set_session [] i s t h e = refl
keys-set_session (u ∷ rest) zero s t h e =
    ap (λ k. k ∷ keys rest) (e ∙ ap (λ z. z.key) (sym (some-injective u t h)))
keys-set_session (u ∷ rest) (suc i) s t h e =
    ap (λ ks. u.key ∷ ks) (keys-set_session rest i s t h e)

-- The session that answers: it stands at the position, holds a mirror, and is that of the file. Either
-- nothing has changed, and then it held the mirror before, or the session at the position held none,
-- and the outcome of a pull that succeeded comes with it.
abbrev pub Answers : World → Str → SessionManager → SessionManager → ℕ → Option PullOutcome → Type 0
Answers w key before after pos outcome =
    (s : FileSession) × (session_of pos after.sessions ≡ some s)
    × (s.key ≡ key)
    × (s.mirrored ≡ true)
    × (((outcome ≡ none) × (after ≡ before))
        ⊎ ((t : FileSession) × (o : PullOutcome) × (session_of pos before.sessions ≡ some t)
            × (t.mirrored ≡ false)
            × (outcome ≡ some o)
            × (w.pulled key ≡ ok o)))

pub do_pull-key :
    (w : World) (s : FileSession) (pulled : Result PullError PullOutcome) (seen : Option Str)
    (interval : ℕ)
    → (do_pull w.print s pulled seen interval).0.key ≡ s.key
unfolding do_pull
do_pull-key w s (ok o) seen interval = refl
do_pull-key w s (err e) seen interval = refl

pulled-Answers :
    (w : World) (interval : ℕ) (m : SessionManager) (pos : ℕ) (s : FileSession)
    (r : Result PullError PullOutcome)
    → w.pulled s.key ≡ r
    → session_of pos m.sessions ≡ some s
    → s.mirrored ≡ false
    → let (s', answer) = do_pull w.print s r (w.seen s.key) interval in
      (p : ℕ) (outcome : Option PullOutcome)
      → pull_answer pos answer ≡ ok (p, outcome)
      → Answers w s.key m (record m { sessions = set_session pos s' m.sessions }) p outcome
unfolding do_pull note_pull_success
pulled-Answers w interval m pos s (err e) h at bare p outcome a = cc
pulled-Answers w interval m pos s (ok o) h at bare p outcome a =
    let s' = note_pull_success s o (w.seen s.key) in
    let q : pos ≡ p = cc in
    let n : outcome ≡ some o = cc in
    (
      s',
      subst (λ z. session_of z (set_session pos s' m.sessions) ≡ some s') q
          (set_session-session_of m.sessions pos s' s at),
      refl,
      refl,
      inr (s, o, subst (λ z. session_of z m.sessions ≡ some s) q at, bare, n, h),
    )

abbrev pub Answered : World → Str → SessionManager → Resolved → Type 0
Answered w key before (after, answer) =
    Distinct (keys after.sessions)
    × ((p : ℕ) (outcome : Option PullOutcome)
        → answer ≡ ok (p, outcome)
        → Answers w key before after p outcome)

resolve_at-Answered :
    (w : World) (interval : ℕ) (m : SessionManager) (pos : ℕ) (s : FileSession)
    → session_of pos m.sessions ≡ some s
    → Distinct (keys m.sessions)
    → Answered w s.key m (resolve_at w interval m pos (some s))
unfolding resolve_at
resolve_at-Answered w interval m pos s at d =
    let pulled = do_pull w.print s (w.pulled s.key) (w.seen s.key) interval in
    let asked : Resolved =
      (record m { sessions = set_session pos pulled.0 m.sessions }, pull_answer pos pulled.1) in
    let held : Resolved = (m, ok (pos, none)) in
    elim (Bool-cases s.mirrored) [
      | inl e ↦
          subst (λ (r : Resolved). Answered w s.key m r)
            (sym (ap (λ b. if b then held else asked) e))
            (
              d,
              λ p outcome h.
                  let q : pos ≡ p = cc in
                  let n : outcome ≡ none = cc in
                  (s, subst (λ z. session_of z m.sessions ≡ some s) q at, refl, e, inl (n, refl)),
            )
      | inr e ↦
          subst (λ (r : Resolved). Answered w s.key m r)
            (sym (ap (λ b. if b then held else asked) e))
            (
              subst (λ ks. Distinct ks)
                  (sym (
                    keys-set_session m.sessions pos pulled.0 s at
                      (do_pull-key w s (w.pulled s.key) (w.seen s.key) interval)))
                  d,
              pulled-Answers w interval m pos s (w.pulled s.key) refl at e,
            )
    ]

resolve_opened-Answers :
    (w : World) (interval : ℕ) (key : Option Str) (m : SessionManager)
    (opened : SessionManager × Result Str ℕ)
    → Opened m key opened
    → Distinct (keys (resolve_opened w interval opened).0.sessions)
      × ((p : ℕ) (outcome : Option PullOutcome)
          → (resolve_opened w interval opened).1 ≡ ok (p, outcome)
          → (k : Str) × (key ≡ some k)
            × Answers w k opened.0 (resolve_opened w interval opened).0 p outcome)
resolve_opened-Answers w interval key m (m', err e) (d, kept, found) = (d, λ p outcome h. cc)
resolve_opened-Answers w interval key m (m', ok pos) (d, kept, found) =
    let (s, at, named) = found pos refl in
    let (d', answers) = resolve_at-Answered w interval m' pos s at d in
    rw at (d', λ p outcome h. (s.key, named, answers p outcome h))

-- Where no two sessions have the same key, a call that names a file is answered, if at all, from
-- the session of that file, which then holds a mirror: either it is answered without a pull and
-- changes nothing beyond the opening of the session, or the opened session held no mirror, and it is
-- answered with the outcome of a pull that succeeded. Again no two sessions have the same key.
pub resolve_lem :
    (w : World) (interval : ℕ) (m : SessionManager) (file_ref : Str)
    → Distinct (keys m.sessions)
    → Distinct (keys (resolve w interval m (some file_ref)).0.sessions)
      × ((p : ℕ) (outcome : Option PullOutcome)
          → (resolve w interval m (some file_ref)).1 ≡ ok (p, outcome)
          → (k : Str) × (parse_file_ref file_ref ≡ some k)
            × Answers w k
                (open_file w.stored m file_ref).0
                (resolve w interval m (some file_ref)).0
                p
                outcome)
unfolding resolve
resolve_lem w interval m file_ref d =
    resolve_opened-Answers w interval (parse_file_ref file_ref) m (open_file w.stored m file_ref)
      (open_file_lem w.stored m file_ref d)
