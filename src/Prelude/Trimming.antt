-- ===== src/Prelude/Trimming.antt =====
-- What `trim` leaves as it is.
use mathlib.Core.List.{reverse, reverse-cons, reverse-reverse}
use mathlib.Core.Path.{◌≡◌, refl, sym, ap, ◌∙◌, subst}
use mathlib.Core.Bool.{Bool, true, false, ◌&&◌, ◌||◌}
use mathlib.Core.List.{List, [], ◌∷◌, map}
use Prim.Native.Nat.{ℕ, ◌<◌}
use native.Mathlib.Omega.{arith}
use figmog.Prelude.Tests.{◌==◌, leb, nat_eq}
use figmog.Prelude.Lists.{All, All-append}
use figmog.Prelude.Text.{Str, trim, skip, begins_with, white_characters}

-- A printed ASCII character
abbrev pub Printed : ℕ → Type 0
Printed c = (32 < c) × (c < 128)

-- Each text begins with a byte that is no printed ASCII character.
apart : List Str → Bool
apart [] = true
apart ([] ∷ ws) = false
apart ((b ∷ w) ∷ ws) = (leb b 32 || leb 128 b) && apart ws

begins_with-Printed :
    (ws : List Str) (c : ℕ) (s : Str) → apart ws ≡ true → Printed c → begins_with ws (c ∷ s) ≡ 0
unfolding apart begins_with
begins_with-Printed [] c s h p = refl
begins_with-Printed ([] ∷ ws) c s h p = cc
begins_with-Printed ((b ∷ w) ∷ ws) c s h (l, u) =
    let other : (b == c) ≡ false = ground arith in
    let rest : apart ws ≡ true = ground arith in
    rw (other, begins_with) (begins_with-Printed ws c s rest (l, u))

skip-Printed : (ws : List Str) (s : Str) → apart ws ≡ true → All Printed s → skip ws 0 s ≡ s
unfolding skip
skip-Printed ws [] h p = refl
skip-Printed ws (c ∷ s) h (p, ps) = rw (begins_with-Printed ws c s h p, skip) refl

All-reverse : (s : Str) → All Printed s → All Printed (reverse s)
All-reverse [] h = tt
All-reverse (c ∷ s) (p, h) =
    subst (λ t. All Printed t) (sym (reverse-cons c s))
      (All-append Printed (reverse s) (c ∷ []) (All-reverse s h) (p, tt))

pub trim_same : (s : Str) → All Printed s → trim s ≡ s
unfolding trim apart
trim_same s h =
    ap (λ t. reverse (skip (map reverse white_characters) 0 (reverse t)))
      (skip-Printed white_characters s refl h)
    ∙ ap reverse (skip-Printed (map reverse white_characters) (reverse s) refl (All-reverse s h))
    ∙ reverse-reverse s
