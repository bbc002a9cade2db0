-- ===== src/Prelude/Text.antt =====
-- Rust's `str` as its UTF-8 bytes, with the operations of `str` that the program calls.
use Prim.Native.Nat.{ℕ, zero, suc, ◌+◌, ◌-◌, ◌/◌, ◌%◌}
use Prim.Native.Char.{code}
use Prim.Native.String.{String}
use mathlib.Core.Path.{◌≡◌}
use mathlib.Core.Logic.{◌↔◌}
use mathlib.Core.Bool.{Bool, true, false, ◌&&◌, ◌||◌}
use mathlib.Core.List.{List, [], ◌∷◌, ◌++◌, map, reverse}
use mathlib.Core.Option
use mathlib.Core.Option.{Option, none, some}
use figmog.Prelude.Tests.{
  ltb, leb, ◌==◌, HasEquality, nat_eq, list_beq, list_beq_sound, list_beq_refl, if◌then◌else◌,
}

-- The bytes of a text.
abbrev pub Str : Type 0
Str = List ℕ

-- The bytes of an ASCII literal.
abbrev pub lit : String → Str
lit String.[] = []
lit (String.◌∷◌ c s) = code c ∷ lit s

unfoldable pub str_beq : Str → Str → Bool
str_beq = list_beq

pub str_beq_iff : (a b : Str) → (str_beq a b ≡ true) ↔ (a ≡ b)
unfolding str_beq
str_beq_iff a b = (list_beq_sound a b, λ p. rw p (list_beq_refl b))

instance abbrev pub str_eq : HasEquality Str
str_eq = record { equal = str_beq; equal_iff = str_beq_iff }

-- `u8::is_ascii_digit`
abbrev pub is_digit : ℕ → Bool
is_digit c = leb b'0' c && leb c b'9'

-- `char::is_ascii_alphanumeric`; a byte of a longer character is 128 or more, so it fails too.
abbrev pub is_alnum : ℕ → Bool
is_alnum c = is_digit c || (leb b'A' c && leb c b'Z') || (leb b'a' c && leb c b'z')

-- `u8::is_ascii_hexdigit`
abbrev pub is_hex : ℕ → Bool
is_hex c = is_digit c || (leb b'A' c && leb c b'F') || (leb b'a' c && leb c b'f')

-- `char::to_digit(16)` of a hexadecimal digit
abbrev pub hex_value : ℕ → ℕ
hex_value c = if leb c b'9' then c - b'0' else if leb c b'F' then c - 55 else c - 87

-- `s.strip_prefix(p)`
abbrev pub strip_prefix : Str → Str → Option Str
strip_prefix [] s = some s
strip_prefix (c ∷ p) [] = none
strip_prefix (c ∷ p) (d ∷ s) = if c == d then strip_prefix p s else none

abbrev prepend : ℕ → Str × Str → Str × Str
prepend c (a, b) = (c ∷ a, b)

-- `s.split_once(c)` for an ASCII character
unfoldable pub split_once : ℕ → Str → Option (Str × Str)
split_once c [] = none
split_once c (d ∷ s) = if d == c then some ([], s) else Option.map (prepend d) (split_once c s)

-- `s.split_once(p)` for a text; only the part after it is used by the program
unfoldable pub after : Str → Str → Option Str
after p [] = strip_prefix p []
after p (d ∷ s) = elim (strip_prefix p (d ∷ s)) [ some rest ↦ some rest | none ↦ after p s ]

-- `s.contains(p)`
unfoldable pub contains : Str → Str → Bool
unfolding after
contains p s = elim (after p s) [ some _ ↦ true | none ↦ false ]

abbrev pub push_first : ℕ → List Str → List Str
push_first c [] = (c ∷ []) ∷ []
push_first c (part ∷ parts) = (c ∷ part) ∷ parts

-- `s.split(c)`: never empty
unfoldable pub split : ℕ → Str → List Str
split c [] = [] ∷ []
split c (d ∷ s) = let parts = split c s in if d == c then [] ∷ parts else push_first d parts

decimal_from : ℕ → ℕ → Str → Str
decimal_from zero n acc = acc
decimal_from (suc f) n acc =
    let longer = (b'0' + n % 10) ∷ acc in
    let rest = decimal_from f (n / 10) longer in if ltb n 10 then longer else rest

-- A number as `format!` writes it; it has fewer digits than `n + 1`.
unfoldable pub decimal : ℕ → Str
unfolding decimal_from
decimal n = decimal_from (n + 1) n []

-- The characters that `char::is_whitespace` holds of.
abbrev pub white_characters : List Str
white_characters =
    (9 ∷ [])
    ∷ (10 ∷ [])
    ∷ (11 ∷ [])
    ∷ (12 ∷ [])
    ∷ (13 ∷ [])
    ∷ (32 ∷ [])
    ∷ (0xc2 ∷ 0x85 ∷ [])
    ∷ (0xc2 ∷ 0xa0 ∷ [])
    ∷ (0xe1 ∷ 0x9a ∷ 0x80 ∷ [])
    ∷ (0xe2 ∷ 0x80 ∷ 0x80 ∷ [])
    ∷ (0xe2 ∷ 0x80 ∷ 0x81 ∷ [])
    ∷ (0xe2 ∷ 0x80 ∷ 0x82 ∷ [])
    ∷ (0xe2 ∷ 0x80 ∷ 0x83 ∷ [])
    ∷ (0xe2 ∷ 0x80 ∷ 0x84 ∷ [])
    ∷ (0xe2 ∷ 0x80 ∷ 0x85 ∷ [])
    ∷ (0xe2 ∷ 0x80 ∷ 0x86 ∷ [])
    ∷ (0xe2 ∷ 0x80 ∷ 0x87 ∷ [])
    ∷ (0xe2 ∷ 0x80 ∷ 0x88 ∷ [])
    ∷ (0xe2 ∷ 0x80 ∷ 0x89 ∷ [])
    ∷ (0xe2 ∷ 0x80 ∷ 0x8a ∷ [])
    ∷ (0xe2 ∷ 0x80 ∷ 0xa8 ∷ [])
    ∷ (0xe2 ∷ 0x80 ∷ 0xa9 ∷ [])
    ∷ (0xe2 ∷ 0x80 ∷ 0xaf ∷ [])
    ∷ (0xe2 ∷ 0x81 ∷ 0x9f ∷ [])
    ∷ (0xe3 ∷ 0x80 ∷ 0x80 ∷ [])
    ∷ []

unfoldable pub bytes_of : Str → ℕ
bytes_of [] = 0
bytes_of (c ∷ s) = suc (bytes_of s)

-- How many bytes the first of the texts that the text begins with has, and 0 if it begins with none.
unfoldable pub begins_with : List Str → Str → ℕ
unfolding bytes_of
begins_with [] s = 0
begins_with (w ∷ ws) s = elim (strip_prefix w s) [ some _ ↦ bytes_of w | none ↦ begins_with ws s ]

-- The text without the bytes that are still to be skipped and the characters after them.
unfoldable pub skip : List Str → ℕ → Str → Str
unfolding begins_with
skip ws n [] = []
skip ws (suc n) (c ∷ s) = skip ws n s
skip ws zero (c ∷ s) = elim (begins_with ws (c ∷ s)) [ zero ↦ c ∷ s | suc n ↦ skip ws n s ]

-- `s.trim()`
unfoldable pub trim : Str → Str
unfolding skip
trim s = reverse (skip (map reverse white_characters) 0 (reverse (skip white_characters 0 s)))

-- `u8::to_ascii_lowercase`
abbrev pub lower : ℕ → ℕ
lower c = if leb b'A' c && leb c b'Z' then c + 32 else c

-- `s.to_ascii_lowercase()`
abbrev pub to_ascii_lowercase : Str → Str
to_ascii_lowercase s = map lower s

strip_return : Str → Str
strip_return [] = []
strip_return (c ∷ []) = if c == 13 then [] else c ∷ []
strip_return (c ∷ d ∷ s) = c ∷ strip_return (d ∷ s)

-- The last part is not ended by a newline, and is no line if it is empty.
end_lines : List Str → List Str
unfolding strip_return
end_lines [] = []
end_lines ([] ∷ []) = []
end_lines ((c ∷ s) ∷ []) = (c ∷ s) ∷ []
end_lines (p ∷ q ∷ ps) = strip_return p ∷ end_lines (q ∷ ps)

-- `s.lines()`
unfoldable pub lines : Str → List Str
unfolding split end_lines
lines s = end_lines (split 10 s)

-- `parts.join(sep)`
abbrev pub join : Str → List Str → Str
join sep [] = []
join sep (s ∷ []) = s
join sep (s ∷ t ∷ ss) = s ++ (sep ++ join sep (t ∷ ss))
