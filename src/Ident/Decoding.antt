-- ===== src/Ident/Decoding.antt =====
-- Percent decoding against an encoder.
use Prim.Native.Nat.{◌/◌}
use figmog.Prelude.{
  ℕ, ◌+◌, ◌%◌, ◌<◌, Bool, true, false, ◌≡◌, inl, inr, refl, ap, [], ◌∷◌, arith, ◌∙◌,
}
use figmog.Prelude.Tests.{Bool-cases, ◌==◌, nat_eq, if◌then◌else◌, ltb}
use figmog.Prelude.Lists.{All}
use figmog.Prelude.Text.{Str, is_hex, hex_value}
use figmog.Prelude.Splitting.{Without}
use figmog.Ident.{decode_bytes, percent_decode, utf8_from, utf8_step, utf8_start, whole}

abbrev pub hex_digit : ℕ → ℕ
hex_digit n = if ltb n 10 then 48 + n else 55 + n

-- An encoder that leaves the bytes chosen by `keep`, and writes every other one as `%XX`.
abbrev pub percent_encode : (ℕ → Bool) → Str → Str
percent_encode keep [] = []
percent_encode keep (c ∷ s) =
    if keep c
    then c ∷ percent_encode keep s
    else b'%' ∷ hex_digit (c / 16) ∷ hex_digit (c % 16) ∷ percent_encode keep s

hex_digit_lem : (n : ℕ) → n < 16 → (is_hex (hex_digit n) ≡ true) × (hex_value (hex_digit n) ≡ n)
hex_digit_lem n h = ground arith

decode_bytes-plain :
    (c : ℕ) (s : Str) → (c == b'%') ≡ false → decode_bytes (c ∷ s) ≡ c ∷ decode_bytes s
unfolding decode_bytes
decode_bytes-plain c [] h = refl
decode_bytes-plain c (d ∷ []) h = refl
decode_bytes-plain c (d ∷ e ∷ s) h = rw h

decode_bytes-escape :
    (c : ℕ) (s : Str)
    → c < 256
    → decode_bytes (b'%' ∷ hex_digit (c / 16) ∷ hex_digit (c % 16) ∷ s) ≡ c ∷ decode_bytes s
unfolding decode_bytes
decode_bytes-escape c s h =
    let (hi, hv) = hex_digit_lem (c / 16) (omega arith) in
    let (lo, lv) = hex_digit_lem (c % 16) (omega arith) in
    rw (hi, lo) (rw (hv, lv) (ap (λ x. x ∷ decode_bytes s) (omega arith)))

decode_bytes-encode :
    (keep : ℕ → Bool) (s : Str)
    → keep b'%' ≡ false
    → All (λ c. c < 256) s
    → decode_bytes (percent_encode keep s) ≡ s
decode_bytes-encode keep [] k h = unfold decode_bytes in refl
decode_bytes-encode keep (c ∷ s) k (p, h) = elim (Bool-cases (keep c)) [
  | inl e ↦ rw e (
      decode_bytes-plain c (percent_encode keep s) (ground arith)
      ∙ ap (◌∷◌ c) (decode_bytes-encode keep s k h))
  | inr e ↦ rw e (
      decode_bytes-escape c (percent_encode keep s) p ∙ ap (◌∷◌ c) (decode_bytes-encode keep s k h))
]

-- Text that holds no `%` is left alone.
pub decode_bytes-Without : (s : Str) → Without b'%' s → decode_bytes s ≡ s
decode_bytes-Without [] h = unfold decode_bytes in refl
decode_bytes-Without (c ∷ s) (p, h) =
    decode_bytes-plain c s p ∙ ap (◌∷◌ c) (decode_bytes-Without s h)

utf8_from-ascii : (s : Str) → All (λ c. c < 128) s → utf8_from whole s ≡ s
unfolding utf8_from utf8_step utf8_start
utf8_from-ascii [] h = refl
utf8_from-ascii (c ∷ s) (p, h) = ground (arith, utf8_from-ascii s h)

pub percent_decode-Without :
    (s : Str) → Without b'%' s → All (λ c. c < 128) s → percent_decode s ≡ s
unfolding percent_decode
percent_decode-Without s h k = ap (utf8_from whole) (decode_bytes-Without s h) ∙ utf8_from-ascii s k

wider : (s : Str) → All (λ c. c < 128) s → All (λ c. c < 256) s
wider [] h = tt
wider (c ∷ s) (p, h) = (omega arith, wider s h)

-- Whichever bytes an encoder leaves as they are, `%` not among them, decoding an encoded ASCII text
-- gives the text back.
pub percent_decode-encode :
    (keep : ℕ → Bool) (s : Str)
    → keep b'%' ≡ false
    → All (λ c. c < 128) s
    → percent_decode (percent_encode keep s) ≡ s
unfolding percent_decode
percent_decode-encode keep s k h =
    ap (utf8_from whole) (decode_bytes-encode keep s k (wider s h)) ∙ utf8_from-ascii s h
