-- ===== src/Ident/NodeIds.antt =====
-- The canonical form of node ids, and the ids inside URLs.
use figmog.Prelude.{ℕ, true, false, ◌&&◌, ◌≡◌, ◌⊎◌, inl, inr, refl, ap, [], ◌∷◌, ◌++◌, arith}
use mathlib.Core.Bool.{and-eq-true_iff}
use figmog.Prelude.Tests.{Bool-cases, ◌==◌, nat_eq}
use figmog.Prelude.Lists.{all, All-append}
use figmog.Prelude.Text.{Str, is_digit}
use figmog.Prelude.Splitting.{Without, split_once-append, split_once_missing, split_once-cases}
use figmog.Ident.{digits, normalize_node_id}

pub digits-Without : (c : ℕ) (s : Str) → is_digit c ≡ false → all is_digit s ≡ true → Without c s
digits-Without c [] n h = tt
digits-Without c (d ∷ s) n h = (ground arith, digits-Without c s n (ground arith))

pub digits-all : (s : Str) → digits s ≡ true → all is_digit s ≡ true
digits-all [] h = cc
digits-all (c ∷ s) h = h

-- An id that is written with one dash between two runs of digits gets a colon in its place.
pub normalize_node_id-dash :
    (a b : Str)
    → digits a ≡ true
    → digits b ≡ true
    → normalize_node_id (a ++ (b'-' ∷ b)) ≡ a ++ (b':' ∷ b)
unfolding normalize_node_id
normalize_node_id-dash a b p q =
    rw (split_once-append b'-' a b (digits-Without b'-' a refl (digits-all a p))) (ground arith)

-- An input is returned as it is, or it is one dash between two runs of digits, and is returned with a
-- colon in its place.
pub normalize_node_id-cases :
    (s : Str)
    → (normalize_node_id s ≡ s)
      ⊎ ((a : Str) × (b : Str) × (s ≡ a ++ (b'-' ∷ b))
          × (digits a ≡ true)
          × (digits b ≡ true)
          × (normalize_node_id s ≡ a ++ (b':' ∷ b)))
unfolding normalize_node_id
normalize_node_id-cases s = elim (split_once-cases b'-' s) [
  | inl m ↦ inl (rw m)
  | inr (a, b, m, w, n) ↦ elim (Bool-cases (digits a && digits b)) [
    | inl e ↦
        let (p, q) = (and-eq-true_iff (digits a) (digits b)).0 e in inr (a, b, w, p, q, rw m (rw e))
    | inr e ↦ inl (rw m (rw e))
  ]
]

Without-append : (c : ℕ) (a b : Str) → Without c a → Without c b → Without c (a ++ b)
Without-append c a b = All-append (λ d. (d == c) ≡ false) a b

no_dash : (a b : Str) → digits a ≡ true → digits b ≡ true → Without b'-' (a ++ (b':' ∷ b))
no_dash a b p q =
    Without-append b'-' a (b':' ∷ b) (digits-Without b'-' a refl (digits-all a p))
      (refl, digits-Without b'-' b refl (digits-all b q))

-- A second normalization changes nothing.
pub normalize_node_id_idem :
    (s : Str) → normalize_node_id (normalize_node_id s) ≡ normalize_node_id s
unfolding normalize_node_id
normalize_node_id_idem s = elim (normalize_node_id-cases s) [
  | inl e ↦ ap normalize_node_id e
  | inr (a, b, w, p, q, e) ↦ rw e (rw (split_once_missing b'-' (a ++ (b':' ∷ b)) (no_dash a b p q)))
]
