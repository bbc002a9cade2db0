-- ===== src/Prelude/Splitting.antt =====
-- What `split_once`, `split` and the search for a text find.
use mathlib.Core.Path.{◌≡◌, refl, ap}
use mathlib.Core.Bool.{true, false, not}
use mathlib.Core.List.{[], ◌∷◌, ◌++◌}
use mathlib.Core.Option
use mathlib.Core.Option.{Option, none, some, some-injective}
use Prim.Native.Nat.{ℕ}
use native.Mathlib.Omega.{arith}
use mathlib.Core.Logic.{◌⊎◌, inl, inr}
use figmog.Prelude.Tests.{◌==◌, nat_eq, Bool-cases, Option-cases}
use figmog.Prelude.Lists.{All, all}
use figmog.Prelude.Text.{Str, split_once, split}

-- The character stands nowhere in the text.
abbrev pub Without : ℕ → Str → Type 0
Without c s = All (λ d. (d == c) ≡ false) s

pub split_once-append :
    (c : ℕ) (a b : Str) → Without c a → split_once c (a ++ (c ∷ b)) ≡ some (a, b)
unfolding split_once
split_once-append c [] b h = ground arith
split_once-append c (d ∷ a) b (p, h) = rw (p, split_once-append c a b h)

pub split_once_missing : (c : ℕ) (s : Str) → Without c s → split_once c s ≡ none
unfolding split_once
split_once_missing c [] h = refl
split_once_missing c (d ∷ s) (p, h) = rw (p, split_once_missing c s h)

-- Either the character is not there, or the two parts are what stands on its sides.
pub split_once-cases :
    (c : ℕ) (s : Str)
    → (split_once c s ≡ none)
      ⊎ ((a : Str) × (b : Str) × (split_once c s ≡ some (a, b)) × (s ≡ a ++ (c ∷ b)) × Without c a)
unfolding split_once
split_once-cases c [] = inl refl
split_once-cases c (d ∷ s) = elim (Bool-cases (d == c)) [
  | inl e ↦ inr ([], s, rw e, ground arith, tt)
  | inr e ↦ elim (split_once-cases c s) [
    | inl m ↦ inl (rw (e, m))
    | inr (a, b, m, w, n) ↦ inr (d ∷ a, b, rw (e, m), ap (◌∷◌ d) w, (e, n))
  ]
]

pub split-append : (c : ℕ) (a b : Str) → Without c a → split c (a ++ (c ∷ b)) ≡ a ∷ split c b
unfolding split
split-append c [] b h = ground arith
split-append c (d ∷ a) b (p, h) = rw (p, split-append c a b h)

pub split_missing : (c : ℕ) (s : Str) → Without c s → split c s ≡ s ∷ []
unfolding split
split_missing c [] h = refl
split_missing c (d ∷ s) (p, h) = rw (p, split_missing c s h)

-- For a given text the test can be computed.
pub Without-of_all : (c : ℕ) (s : Str) → all (λ d. not (d == c)) s ≡ true → Without c s
Without-of_all c [] h = tt
Without-of_all c (d ∷ s) h = (ground arith, Without-of_all c s (ground arith))

-- The search in a text followed by another: it ends in the first, or goes on in the second.
pub split_once-found :
    (c : ℕ) (a b l r : Str)
    → split_once c a ≡ some (l, r)
    → split_once c (a ++ b) ≡ some (l, r ++ b)
unfolding split_once
split_once-found c [] b l r h = cc
split_once-found c (d ∷ a) b l r h = elim (Bool-cases (d == c)) [
  | inl e ↦
      let p : some ([], a) ≡ some (l, r) = rw e at h in
      rw e (ap (λ z. some (z.0, z.1 ++ b)) (some-injective ([], a) (l, r) p))
  | inr e ↦ elim (Option-cases (split_once c a)) [
    | inl m ↦ let bad : Path (Option (Str × Str)) none (some (l, r)) = rw (e, m) at h in cc
    | inr ((x, y), m) ↦
        let p : some (d ∷ x, y) ≡ some (l, r) = rw (e, m) at h in
        rw (e, split_once-found c a b x y m)
          (ap (λ z. some (z.0, z.1 ++ b)) (some-injective (d ∷ x, y) (l, r) p))
  ]
]

pub split_once-passed :
    (c : ℕ) (a b : Str)
    → split_once c a ≡ none
    → split_once c (a ++ b) ≡ Option.map (λ p. (a ++ p.0, p.1)) (split_once c b)
unfolding split_once
split_once-passed c [] b h = elim (Option-cases (split_once c b)) [
  | inl m ↦ rw m
  | inr (p, m) ↦ rw m
]
split_once-passed c (d ∷ a) b h = elim (Bool-cases (d == c)) [
  | inl e ↦ let bad : Path (Option (Str × Str)) (some ([], a)) none = rw e at h in cc
  | inr e ↦ elim (Option-cases (split_once c a)) [
    | inl m ↦ elim (Option-cases (split_once c b)) [
      | inl k ↦ rw (e, split_once-passed c a b m, k)
      | inr (p, k) ↦ rw (e, split_once-passed c a b m, k)
    ]
    | inr ((x, y), m) ↦
        let bad : Path (Option (Str × Str)) (some (d ∷ x, y)) none = rw (e, m) at h in cc
  ]
]
