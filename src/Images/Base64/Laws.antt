-- ===== src/Images/Base64/Laws.antt =====
-- `base64_decode` after `base64_encode` in src/images.rs.
use mathlib.Core.Path.{subst}
use Prim.Native.Nat.{◌/◌}
use figmog.Prelude.{
  ℕ, zero, suc, ◌+◌, ◌*◌, ◌%◌, ◌<◌, ◌≡◌, refl, ap, ◌∙◌, Bool, true, false, not, ◌&&◌, [], ◌∷◌,
  arith,
}
use figmog.Prelude.Tests.{◌==◌, ltb, nat_eq, nat_beq_iff}
use figmog.Prelude.Lists.{length, All}
use figmog.Prelude.Text.{Str}
use figmog.Prelude.Trimming.{Printed, trim_same}
use figmog.Api.{Result, ok, err}
use figmog.Images.Base64.{
  b64_alphabet, byte_at, digit, packed, base64_encode, val, pads, number, pushed, decode_chunk,
  decode_chunks, base64_decode,
}

-- The byte is the digit of the number: no `=`, and printed.
abbrev pub Digit : ℕ → ℕ → Type 0
Digit c i = (val c ≡ ok i) × ((c == b'=') ≡ false) × (32 < c) × (c < 128)

stands_for : Result Str ℕ → ℕ → Bool
stands_for (ok j) i = j == i
stands_for (err e) i = false

digit_test : ℕ → ℕ → Bool
unfolding stands_for
digit_test c i = stands_for (val c) i && (not (c == b'=') && (ltb 32 c && ltb c 128))

stands_for_sound : (r : Result Str ℕ) (i : ℕ) → stands_for r i ≡ true → r ≡ ok i
unfolding stands_for
stands_for_sound (ok j) i h = ap ok ((nat_beq_iff j i).0 h)
stands_for_sound (err e) i h = cc

and_split : (a b : Bool) → (a && b) ≡ true → (a ≡ true) × (b ≡ true)
and_split true b h = (refl, h)
and_split false b h = cc

digit_test_sound : (c i : ℕ) → digit_test c i ≡ true → Digit c i
unfolding digit_test
digit_test_sound c i h =
    let (v, rest) =
      and_split (stands_for (val c) i) (not (c == b'=') && (ltb 32 c && ltb c 128)) h in
    (stands_for_sound (val c) i v, ground arith, ground arith, ground arith)

-- The bytes are the digits from so many on.
digits_from : ℕ → Str → Bool
unfolding digit_test
digits_from i [] = true
digits_from i (c ∷ s) = digit_test c i && digits_from (suc i) s

digits_from_sound :
    (i k : ℕ) (s : Str) → digits_from i s ≡ true → k < length s → Digit (byte_at k s) (i + k)
unfolding digits_from
digits_from_sound i k [] h l = absurd (omega (arith, l))
digits_from_sound i zero (c ∷ s) h l =
    subst (λ n. Digit c n) (omega arith)
      (digit_test_sound c i (and_split (digit_test c i) (digits_from (suc i) s) h).0)
digits_from_sound i (suc k) (c ∷ s) h l =
    subst (λ n. Digit (byte_at k s) n) (omega arith)
      (digits_from_sound (suc i) k s (and_split (digit_test c i) (digits_from (suc i) s) h).1
        (omega (arith, l)))

b64_alphabet-digits : digits_from 0 b64_alphabet ≡ true
unfolding digits_from val
b64_alphabet-digits = refl

digit-Digit : (n : ℕ) → Digit (digit n) (n % 64)
unfolding digit
digit-Digit n =
    subst (λ k. Digit (digit n) k) (omega arith)
      (digits_from_sound 0 (n % 64) b64_alphabet b64_alphabet-digits (omega arith))

number-Digit : (c i m : ℕ) (s : Str) → Digit c i → number m (c ∷ s) ≡ number (m * 64 + i) s
unfolding number
number-Digit c i m s (v, e, l, u) = rw (e, number, v) refl

pads-Digit : (c i : ℕ) (s : Str) → Digit c i → pads (c ∷ s) ≡ pads s
pads-Digit c i s (v, e, l, u) = rw e refl

-- A chunk of so many digits, and `=` for the others.
chunk-four :
    (a b c d i j k l : ℕ)
    → Digit a i
    → Digit b j
    → Digit c k
    → Digit d l
    → decode_chunk (a ∷ b ∷ c ∷ d ∷ [])
      ≡ ok (pushed 0 ((((0 * 64 + i) * 64 + j) * 64 + k) * 64 + l))
unfolding number
chunk-four a b c d i j k l p q r s =
    rw
      (
        number-Digit a i 0 (b ∷ c ∷ d ∷ []) p,
        number-Digit b j (0 * 64 + i) (c ∷ d ∷ []) q,
        number-Digit c k ((0 * 64 + i) * 64 + j) (d ∷ []) r,
        number-Digit d l (((0 * 64 + i) * 64 + j) * 64 + k) [] s,
        p.1,
        q.1,
        r.1,
        s.1,
      )
      refl

chunk-two :
    (a b c i j k : ℕ)
    → Digit a i
    → Digit b j
    → Digit c k
    → decode_chunk (a ∷ b ∷ c ∷ b'=' ∷ []) ≡ ok (pushed 1 ((((0 * 64 + i) * 64 + j) * 64 + k) * 64))
unfolding number
chunk-two a b c i j k p q r =
    rw
      (
        number-Digit a i 0 (b ∷ c ∷ b'=' ∷ []) p,
        number-Digit b j (0 * 64 + i) (c ∷ b'=' ∷ []) q,
        number-Digit c k ((0 * 64 + i) * 64 + j) (b'=' ∷ []) r,
        p.1,
        q.1,
        r.1,
      )
      refl

chunk-one :
    (a b i j : ℕ)
    → Digit a i
    → Digit b j
    → decode_chunk (a ∷ b ∷ b'=' ∷ b'=' ∷ []) ≡ ok (pushed 2 (((0 * 64 + i) * 64 + j) * 64 * 64))
unfolding number
chunk-one a b i j p q =
    rw
      (
        number-Digit a i 0 (b ∷ b'=' ∷ b'=' ∷ []) p,
        number-Digit b j (0 * 64 + i) (b'=' ∷ b'=' ∷ []) q,
        p.1,
        q.1,
      )
      refl

same_bytes : (a b c x y z : ℕ) → a ≡ x → b ≡ y → c ≡ z → Path Str (a ∷ b ∷ c ∷ []) (x ∷ y ∷ z ∷ [])
same_bytes a b c x y z p q r = cc

pushed-three :
    (a b c : ℕ)
    → a < 256
    → b < 256
    → c < 256
    → let n = packed a b c in
      pushed 0
        ((((0 * 64 + n / 262144 % 64) * 64 + n / 4096 % 64) * 64 + n / 64 % 64) * 64 + n % 64)
      ≡ a ∷ b ∷ c ∷ []
pushed-three a b c p q r =
    let n = packed a b c in
    let m = (((0 * 64 + n / 262144 % 64) * 64 + n / 4096 % 64) * 64 + n / 64 % 64) * 64 + n % 64 in
    let same : m ≡ n = omega (arith, p, q, r) in
    same_bytes (m / 65536 % 256) (m / 256 % 256) (m % 256) a b c (omega (arith, same, p, q, r))
      (omega (arith, same, p, q, r)) (omega (arith, same, p, q, r))

pushed-two :
    (a b : ℕ)
    → a < 256
    → b < 256
    → let n = packed a b 0 in
      pushed 1 ((((0 * 64 + n / 262144 % 64) * 64 + n / 4096 % 64) * 64 + n / 64 % 64) * 64)
      ≡ a ∷ b ∷ []
pushed-two a b p q =
    let n = packed a b 0 in
    let m = (((0 * 64 + n / 262144 % 64) * 64 + n / 4096 % 64) * 64 + n / 64 % 64) * 64 in
    let same : m ≡ n = omega (arith, p, q) in
    let x : m / 65536 % 256 ≡ a = omega (arith, same, p, q) in
    let y : m / 256 % 256 ≡ b = omega (arith, same, p, q) in cc

pushed-one :
    (a : ℕ)
    → a < 256
    → let n = packed a 0 0 in
      pushed 2 (((0 * 64 + n / 262144 % 64) * 64 + n / 4096 % 64) * 64 * 64) ≡ a ∷ []
pushed-one a p =
    let n = packed a 0 0 in
    let m = ((0 * 64 + n / 262144 % 64) * 64 + n / 4096 % 64) * 64 * 64 in
    let x : m / 65536 % 256 ≡ a = omega (arith, p) in cc

abbrev pub Byte : ℕ → Type 0
Byte b = b < 256

decode_chunks-encode :
    (bytes : Str) → All Byte bytes → decode_chunks (base64_encode bytes) ≡ ok bytes
unfolding decode_chunks base64_encode
decode_chunks-encode [] h = refl
decode_chunks-encode (a ∷ []) (p, h) =
    let n = packed a 0 0 in
    rw
      (chunk-one (digit (n / 262144)) (digit (n / 4096)) (n / 262144 % 64) (n / 4096 % 64)
          (digit-Digit (n / 262144)) (digit-Digit (n / 4096))
        ∙ ap ok (pushed-one a p))
      refl
decode_chunks-encode (a ∷ b ∷ []) (p, (q, h)) =
    let n = packed a b 0 in
    rw
      (chunk-two (digit (n / 262144)) (digit (n / 4096)) (digit (n / 64)) (n / 262144 % 64)
          (n / 4096 % 64) (n / 64 % 64) (digit-Digit (n / 262144)) (digit-Digit (n / 4096))
          (digit-Digit (n / 64))
        ∙ ap ok (pushed-two a b p q))
      refl
decode_chunks-encode (a ∷ b ∷ c ∷ bytes) (p, (q, (r, h))) =
    let n = packed a b c in
    rw
      (
        chunk-four (digit (n / 262144)) (digit (n / 4096)) (digit (n / 64)) (digit n)
              (n / 262144 % 64) (n / 4096 % 64) (n / 64 % 64) (n % 64) (digit-Digit (n / 262144))
              (digit-Digit (n / 4096)) (digit-Digit (n / 64)) (digit-Digit n)
            ∙ ap ok (pushed-three a b c p q r),
        decode_chunks-encode bytes h,
      )
      refl

length-base64_encode : (bytes : Str) → length (base64_encode bytes) % 4 ≡ 0
unfolding base64_encode
length-base64_encode [] = omega arith
length-base64_encode (a ∷ []) = omega arith
length-base64_encode (a ∷ b ∷ []) = omega arith
length-base64_encode (a ∷ b ∷ c ∷ bytes) = omega (arith, length-base64_encode bytes)

digit-Printed : (n : ℕ) → Printed (digit n)
digit-Printed n = let (v, e, l, u) = digit-Digit n in (l, u)

base64_encode-Printed : (bytes : Str) → All Printed (base64_encode bytes)
unfolding base64_encode
base64_encode-Printed [] = tt
base64_encode-Printed (a ∷ []) = (
  digit-Printed (packed a 0 0 / 262144),
  (
    digit-Printed (packed a 0 0 / 4096),
    ((omega arith, omega arith), ((omega arith, omega arith), tt)),
  ),
)
base64_encode-Printed (a ∷ b ∷ []) = (
  digit-Printed (packed a b 0 / 262144),
  (
    digit-Printed (packed a b 0 / 4096),
    (digit-Printed (packed a b 0 / 64), ((omega arith, omega arith), tt)),
  ),
)
base64_encode-Printed (a ∷ b ∷ c ∷ bytes) = (
  digit-Printed (packed a b c / 262144),
  (
    digit-Printed (packed a b c / 4096),
    (
      digit-Printed (packed a b c / 64),
      (digit-Printed (packed a b c), base64_encode-Printed bytes),
    ),
  ),
)

-- Decoding what bytes are encoded to gives the bytes.
pub base64_decode-encode :
    (bytes : Str) → All Byte bytes → base64_decode (base64_encode bytes) ≡ ok bytes
unfolding base64_decode
base64_decode-encode bytes h =
    rw (trim_same (base64_encode bytes) (base64_encode-Printed bytes), length-base64_encode bytes)
      (decode_chunks-encode bytes h)
