-- ===== src/Sessions/Opening.antt =====
-- `SessionManager::open` of src/sessions.rs.
use mathlib.Core.Path.{subst}
use mathlib.Core.Option.{some-injective}
use figmog.Prelude.{
  ℕ, zero, suc, ◌≡◌, ◌⊎◌, inl, inr, refl, sym, ap, Option, none, some, List, [], ◌∷◌, ◌++◌,
}
use figmog.Prelude.Tests.{◌==◌, Bool-cases, Option-cases}
use figmog.Prelude.Lists.{length}
use figmog.Prelude.Text.{Str, str_eq, str_beq_iff}
use figmog.Prelude.Members.{In, Distinct}
use figmog.Ident.{parse_file_ref}
use figmog.Model.{FileMeta}
use figmog.Api.{Result, ok, err}
use figmog.Sessions.{
  FileSession, SessionManager, session_at, push_opened, position, session_of, open_file,
}

abbrev pub keys : List FileSession → List Str
keys [] = []
keys (s ∷ rest) = s.key ∷ keys rest

-- Where `position` finds a key, its session stands; where it finds none, the key has no session.
position-session_of :
    (key : Str) (sessions : List FileSession) (i : ℕ)
    → position key sessions ≡ some i
    → (s : FileSession) × (session_of i sessions ≡ some s) × (s.key ≡ key)
unfolding position session_of
position-session_of key [] i h = cc
position-session_of key (s ∷ rest) i h = elim (Bool-cases (s.key == key)) [
  | inl e ↦
      let p : some 0 ≡ some i = rw e at h in
      let q = some-injective 0 i p in
      (s, subst (λ z. session_of z (s ∷ rest) ≡ some s) q refl, (str_beq_iff s.key key).0 e)
  | inr e ↦ elim (Option-cases (position key rest)) [
    | inl m ↦ let bad : none ≡ some i = rw (m, e) at h in cc
    | inr (j, m) ↦
        let p : some (suc j) ≡ some i = rw (m, e) at h in
        let q = some-injective (suc j) i p in
        let (t, at_j, k) = position-session_of key rest j m in
        (t, subst (λ z. session_of z (s ∷ rest) ≡ some t) q at_j, k)
  ]
]

position-missing :
    (key : Str) (sessions : List FileSession)
    → position key sessions ≡ none
    → ¬ In key (keys sessions)
unfolding position
position-missing key [] h = λ m. m
position-missing key (s ∷ rest) h = elim (Bool-cases (s.key == key)) [
  | inl e ↦ let bad : some 0 ≡ none = rw e at h in absurd cc
  | inr e ↦ elim (Option-cases (position key rest)) [
    | inl m ↦ λ k. elim k [
      | inl p ↦ let t = (str_beq_iff s.key key).1 (sym p) in absurd cc
      | inr k' ↦ position-missing key rest m k'
    ]
    | inr (j, m) ↦ let bad : some (suc j) ≡ none = rw (m, e) at h in absurd cc
  ]
]

-- A session is added at the end.
session_of-append :
    (sessions : List FileSession) (s : FileSession)
    → (session_of (length sessions) (sessions ++ (s ∷ [])) ≡ some s)
      × ((i : ℕ) (t : FileSession)
          → session_of i sessions ≡ some t
          → session_of i (sessions ++ (s ∷ [])) ≡ some t)
unfolding session_of
session_of-append [] s = (refl, λ i t h. cc)
session_of-append (t ∷ rest) s = let (last, same) = session_of-append rest s in (last, earlier same)
  where
    earlier :
        ((i : ℕ) (u : FileSession)
          → session_of i rest ≡ some u
          → session_of i (rest ++ (s ∷ [])) ≡ some u)
        → (i : ℕ) (u : FileSession) → session_of i (t ∷ rest) ≡ some u
        → session_of i (t ∷ (rest ++ (s ∷ []))) ≡ some u
    earlier same zero u h = h
    earlier same (suc i) u h = same i u h

In-keys-append :
    (key : Str) (sessions : List FileSession) (s : FileSession)
    → In key (keys (sessions ++ (s ∷ [])))
    → In key (keys sessions) ⊎ (key ≡ s.key)
In-keys-append key [] s (inl p) = inr p
In-keys-append key [] s (inr h) = absurd h
In-keys-append key (t ∷ rest) s (inl p) = inl (inl p)
In-keys-append key (t ∷ rest) s (inr h) = elim (In-keys-append key rest s h) [
  | inl k ↦ inl (inr k)
  | inr p ↦ inr p
]

Distinct-append :
    (sessions : List FileSession) (s : FileSession)
    → Distinct (keys sessions)
    → ¬ In s.key (keys sessions)
    → Distinct (keys (sessions ++ (s ∷ [])))
Distinct-append [] s d n = ((λ m. m), tt)
Distinct-append (t ∷ rest) s (f, d) n = (
  (λ m. elim (In-keys-append t.key rest s m) [ inl k ↦ f k | inr p ↦ n (inl (sym p)) ]),
  Distinct-append rest s d (λ m. n (inr m)),
)

-- What an operation on the sessions leaves, for a file that is named.
abbrev pub Opened : SessionManager → Option Str → SessionManager × Result Str ℕ → Type 0
Opened m key (m', answer) =
    Distinct (keys m'.sessions)
    × ((i : ℕ) (t : FileSession)
        → session_of i m.sessions ≡ some t
        → session_of i m'.sessions ≡ some t)
    × ((pos : ℕ)
        → answer ≡ ok pos
        → (s : FileSession) × (session_of pos m'.sessions ≡ some s) × (key ≡ some s.key))

push_opened-Opened :
    (m : SessionManager) (key : Str) (row : Result Str (Option FileMeta))
    → Distinct (keys m.sessions)
    → ¬ In key (keys m.sessions)
    → Opened m (some key) (push_opened m key row)
push_opened-Opened m key (err e) d n = (d, (λ i t h. h), λ pos h. cc)
push_opened-Opened m key (ok row) d n =
    let s = session_at key row in
    let (last, same) = session_of-append m.sessions s in
    (
      Distinct-append m.sessions s d n,
      same,
      (λ pos h.
          let q : length m.sessions ≡ pos = cc in
          (s, subst (λ z. session_of z (m.sessions ++ (s ∷ [])) ≡ some s) q last, refl)),
    )

-- Where no two sessions have the same key, a file that is opened, by its key or by a URL, gets the
-- session of its key: the one there is, or a new one behind the others, which stay where they are.
-- Again no two sessions have the same key.
pub open_file_lem :
    (stored : Str → Result Str (Option FileMeta)) (m : SessionManager) (file_ref : Str)
    → Distinct (keys m.sessions)
    → Opened m (parse_file_ref file_ref) (open_file stored m file_ref)
unfolding open_file
open_file_lem stored m file_ref d = elim (Option-cases (parse_file_ref file_ref)) [
  | inl e ↦ rw (e, open_file) (d, (λ i t h. h), λ pos h. cc)
  | inr (key, e) ↦ elim (Option-cases (position key m.sessions)) [
    | inr (at, p) ↦
        let (s, found, same) = position-session_of key m.sessions at p in
        rw (e, open_file)
          (rw p (
            d,
            (λ i t h. h),
            λ pos h.
                let q : at ≡ pos = cc in
                (s, subst (λ z. session_of z m.sessions ≡ some s) q found, ap some (sym same)),
          ))
    | inl p ↦
        rw (e, open_file)
          (rw p (push_opened-Opened m key (stored key) d (position-missing key m.sessions p)))
  ]
]
