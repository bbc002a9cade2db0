-- ===== src/Cache/Key.antt =====
-- The keys of the cache.
use Prim.Native.Nat.{◌/◌}
use mathlib.Core.Option.{some-injective}
use figmog.Prelude.{
  ℕ, zero, suc, ◌+◌, ◌%◌, ◌<◌, ◌≡◌, sym, ap, ◌∙◌, true, ◌&&◌, ◌||◌, [], ◌∷◌, arith,
}
use figmog.Prelude.Tests.{leb}
use figmog.Prelude.Lists.{length, All}
use figmog.Prelude.Text.{Str, split_once, is_digit}
use figmog.Prelude.Splitting.{Without, split_once-append}
use figmog.Cache.{cache_key, hex_pad, hex_lower, fnv, key_bytes, offset_basis}

abbrev pub IsHexLower : ℕ → Type 0
IsHexLower c = (is_digit c || (leb b'a' c && leb c b'f')) ≡ true

hex_lower-IsHexLower : (n : ℕ) → n < 16 → IsHexLower (hex_lower n)
hex_lower-IsHexLower n h = ground arith

hex_pad_lem :
    (k n : ℕ) (acc : Str)
    → All IsHexLower acc
    → (length (hex_pad k n acc) ≡ k + length acc) × All IsHexLower (hex_pad k n acc)
unfolding hex_pad
hex_pad_lem zero n acc h = (omega arith, h)
hex_pad_lem (suc k) n acc h =
    let (l, a) =
      hex_pad_lem k (n / 16) (hex_lower (n % 16) ∷ acc)
        (hex_lower-IsHexLower (n % 16) (omega arith), h) in
    (omega arith, a)

-- A key is sixteen lower-case hexadecimal digits.
pub cache_key_shape :
    (tool args : Str) → (length (cache_key tool args) ≡ 16) × All IsHexLower (cache_key tool args)
unfolding cache_key
cache_key_shape tool args = hex_pad_lem 16 (fnv offset_basis (key_bytes tool args)) [] tt

-- Two calls of tools without a NUL in their names are hashed over the same bytes only if they are
-- the same call.
pub key_bytes_injective :
    (tool args tool' args' : Str)
    → Without 0 tool
    → Without 0 tool'
    → key_bytes tool args ≡ key_bytes tool' args'
    → (tool ≡ tool') × (args ≡ args')
key_bytes_injective tool args tool' args' h h' e =
    let p =
      some-injective (tool, args) (tool', args')
        (sym (split_once-append 0 tool args h)
          ∙ ap (split_once 0) e
          ∙ split_once-append 0 tool' args' h') in
    (ap (λ (q : Str × Str). q.0) p, ap (λ (q : Str × Str). q.1) p)
