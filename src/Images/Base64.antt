-- ===== src/Images/Base64.antt =====
-- `base64_encode` and `base64_decode` of src/images.rs.
pub mod Laws
use Prim.Native.Nat.{◌/◌}
use figmog.Prelude.{
  ℕ, zero, suc, ◌+◌, ◌-◌, ◌*◌, ◌%◌, Bool, true, false, ◌&&◌, Option, none, some, List, [], ◌∷◌,
  ◌++◌,
}
use figmog.Prelude.Tests.{◌==◌, ltb, leb, nat_eq, if◌then◌else◌}
use figmog.Prelude.Lists.{length}
use figmog.Prelude.Text.{Str, lit, trim, decimal}
use figmog.Api.{Result, ok, err, ◌>>=◌}

abbrev pub b64_alphabet : Str
b64_alphabet = lit "ABCDEFGHIJKLMNOPQRSTUVWXYZabcdefghijklmnopqrstuvwxyz0123456789+/"

-- `bytes[i]`; the indices below are less than 64.
abbrev pub byte_at : ℕ → Str → ℕ
byte_at i [] = 0
byte_at zero (c ∷ s) = c
byte_at (suc i) (c ∷ s) = byte_at i s

unfoldable pub digit : ℕ → ℕ
digit n = byte_at (n % 64) b64_alphabet

-- `(u32::from(b0) << 16) | (u32::from(b1) << 8) | u32::from(b2)`
abbrev pub packed : ℕ → ℕ → ℕ → ℕ
packed b0 b1 b2 = b0 * 65536 + b1 * 256 + b2

unfoldable pub base64_encode : Str → Str
unfolding digit
base64_encode [] = []
base64_encode (b0 ∷ []) =
    let n = packed b0 0 0 in digit (n / 262144) ∷ digit (n / 4096) ∷ b'=' ∷ b'=' ∷ []
base64_encode (b0 ∷ b1 ∷ []) =
    let n = packed b0 b1 0 in digit (n / 262144) ∷ digit (n / 4096) ∷ digit (n / 64) ∷ b'=' ∷ []
base64_encode (b0 ∷ b1 ∷ b2 ∷ bytes) =
    let n = packed b0 b1 b2 in
    digit (n / 262144) ∷ digit (n / 4096) ∷ digit (n / 64) ∷ digit n ∷ base64_encode bytes

abbrev pub between : ℕ → ℕ → ℕ → Bool
between lo hi b = leb lo b && leb b hi

unfoldable pub val : ℕ → Result Str ℕ
val b =
    if between b'A' b'Z' b
    then ok (b - 65)
    else if between b'a' b'z' b
    then ok (b - 97 + 26)
    else if between b'0' b'9' b
    then ok (b - 48 + 52)
    else if b == b'+'
    then ok 62
    else if b == b'/'
    then ok 63
    else err (lit "invalid base64 byte: " ++ decimal b)

abbrev pub pads : Str → ℕ
pads [] = 0
pads (b ∷ s) = if b == b'=' then suc (pads s) else pads s

-- The loop over one chunk. Four digits of six bits stay below `2 ^ 32`, and `|=` sets bits that the
-- shift has cleared.
unfoldable pub number : ℕ → Str → Result Str ℕ
unfolding val
number n [] = ok n
number n (b ∷ s) = elim (b == b'=') [
  | true ↦ number (n * 64) s
  | false ↦ val b >>= λ v. number (n * 64 + v) s
]

-- `as u8` keeps the low byte.
abbrev pub pushed : ℕ → ℕ → Str
pushed pad n =
    (n / 65536 % 256)
    ∷ ((if ltb pad 2 then (n / 256 % 256) ∷ [] else [])
        ++ (if ltb pad 1 then (n % 256) ∷ [] else []))

abbrev pub decode_chunk : Str → Result Str Str
decode_chunk chunk = number 0 chunk >>= λ n. ok (pushed (pads chunk) n)

unfoldable pub decode_chunks : Str → Result Str Str
unfolding number
decode_chunks [] = ok []
decode_chunks (a ∷ b ∷ c ∷ d ∷ s) =
    decode_chunk (a ∷ b ∷ c ∷ d ∷ []) >>= λ bytes. decode_chunks s >>= λ rest. ok (bytes ++ rest)
decode_chunks s = decode_chunk s

unfoldable pub base64_decode : Str → Result Str Str
unfolding decode_chunks
base64_decode s =
    if length (trim s) % 4 == 0
    then decode_chunks (trim s)
    else err (lit "base64 input length must be a multiple of 4")
