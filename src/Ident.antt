-- ===== src/Ident.antt =====
-- src/ident.rs: file keys and node ids as users write them, bare or inside a Figma URL.
mod Keys
mod NodeIds
mod Decoding
mod Urls
mod Tests
use mathlib.Core.Option
use mathlib.Core.List.{reverse}
use figmog.Prelude.{
  ℕ, zero, suc, ◌+◌, ◌-◌, ◌*◌, Bool, true, false, not, ◌&&◌, ◌||◌, Option, none, some, List, [],
  ◌∷◌, ◌++◌,
}
use figmog.Prelude.Tests.{ltb, leb, ◌==◌, nat_eq, if◌then◌else◌}
use figmog.Prelude.Lists.{length, all}
use figmog.Prelude.Text.{
  Str, lit, str_eq, is_digit, is_alnum, is_hex, hex_value, split_once, after, contains, split,
}

-- the closure `is_key` of `parse_file_ref`
abbrev pub is_key : Str → Bool
is_key s = leb 10 (length s) && all is_alnum s

abbrev pub is_route : Str → Bool
is_route s = s == lit "design" || s == lit "file" || s == lit "board"

-- `parts.next()?` twice, with the match on the first part between them
abbrev url_key : List Str → Option Str
url_key (route ∷ key ∷ _) = if is_route route && is_key key then some key else none
url_key _ = none

unfoldable pub parse_file_ref : Str → Option Str
unfolding after split
parse_file_ref input = if is_key input then some input else elim (after (lit "figma.com/") input) [
  | none ↦ none
  | some rest ↦ url_key (split b'/' rest)
]

-- the closure `digits` of `normalize_node_id`
abbrev pub digits : Str → Bool
digits [] = false
digits (c ∷ s) = all is_digit (c ∷ s)

abbrev join_id : Str → Option (Str × Str) → Str
join_id input none = input
join_id input (some (a, b)) = if digits a && digits b then a ++ (b':' ∷ b) else input

pub normalize_node_id : Str → Str
unfolding split_once
normalize_node_id input = join_id input (split_once b'-' input)

-- the loop of `percent_decode` over the bytes, before `String::from_utf8_lossy`
pub decode_bytes : Str → Str
decode_bytes [] = []
decode_bytes (c ∷ []) = c ∷ []
decode_bytes (c ∷ h ∷ []) = c ∷ decode_bytes (h ∷ [])
decode_bytes (c ∷ h ∷ l ∷ s) =
    let escape = (hex_value h * 16 + hex_value l) ∷ decode_bytes s in
    let literal = c ∷ decode_bytes (h ∷ l ∷ s) in
    if c == b'%' && is_hex h && is_hex l then escape else literal

-- What `String::from_utf8_lossy` has read of a character that is not complete: its bytes, how many
-- are missing, and the range of the next one.
pub data Partial : Type 0 where
  whole : Partial
  within : Str → ℕ → ℕ → ℕ → Partial

-- U+FFFD
abbrev replacement : Str
replacement = 0xef ∷ 0xbf ∷ 0xbd ∷ []

abbrev in_range : ℕ → ℕ → ℕ → Bool
in_range lo hi b = leb lo b && leb b hi

utf8_start : ℕ → Str × Partial
utf8_start b =
    if ltb b 0x80
    then (b ∷ [], whole)
    else if in_range 0xc2 0xdf b
    then ([], within (b ∷ []) 1 0x80 0xbf)
    else if b == 0xe0
    then ([], within (b ∷ []) 2 0xa0 0xbf)
    else if b == 0xed
    then ([], within (b ∷ []) 2 0x80 0x9f)
    else if in_range 0xe1 0xef b
    then ([], within (b ∷ []) 2 0x80 0xbf)
    else if b == 0xf0
    then ([], within (b ∷ []) 3 0x90 0xbf)
    else if b == 0xf4
    then ([], within (b ∷ []) 3 0x80 0x8f)
    else if in_range 0xf1 0xf3 b
    then ([], within (b ∷ []) 3 0x80 0xbf)
    else (replacement, whole)

-- the bytes that a partial character has are kept last first
utf8_step : Partial → ℕ → Str × Partial
utf8_step whole b = utf8_start b
utf8_step (within seen n lo hi) b =
    if in_range lo hi b
    then (if n == 1 then (reverse (b ∷ seen), whole) else ([], within (b ∷ seen) (n - 1) 0x80 0xbf))
    else (replacement ++ (utf8_start b).0, (utf8_start b).1)

utf8_from : Partial → Str → Str
utf8_from whole [] = []
utf8_from (within _ _ _ _) [] = replacement
utf8_from p (b ∷ s) = (utf8_step p b).0 ++ utf8_from (utf8_step p b).1 s

-- `String::from_utf8_lossy`
unfoldable pub from_utf8_lossy : Str → Str
unfolding utf8_from utf8_step utf8_start
from_utf8_lossy s = utf8_from whole s

pub percent_decode : Str → Str
unfolding decode_bytes from_utf8_lossy
percent_decode s = from_utf8_lossy (decode_bytes s)

abbrev param_of : Str → Option (Str × Str) → Option Str
param_of key none = none
param_of key (some (k, v)) = if k == key then some (percent_decode v) else none

-- the `find_map` of `query_param`; a pair without `=` is skipped
abbrev find_param : Str → List Str → Option Str
find_param key [] = none
find_param key (pair ∷ pairs) = elim (param_of key (split_once b'=' pair)) [
  | some v ↦ some v
  | none ↦ find_param key pairs
]

abbrev before_fragment : Str → List Str → Str
before_fragment query [] = query
before_fragment query (first ∷ _) = first

pub query_param : Str → Str → Option Str
unfolding split_once split percent_decode
query_param url key = elim (split_once b'?' url) [
  | none ↦ none
  | some (_, query) ↦ find_param key (split b'&' (before_fragment query (split b'#' query)))
]

pub parse_node_ref : Str → Option (Option Str × Str)
unfolding contains query_param parse_file_ref normalize_node_id
parse_node_ref input =
    if contains (lit "figma.com/") input
    then Option.map (λ raw_id. (parse_file_ref input, normalize_node_id raw_id))
        (query_param input (lit "node-id"))
    else some (none, normalize_node_id input)

pub normalize_node_ref : Str → Str
unfolding parse_node_ref
normalize_node_ref input = elim (parse_node_ref input) [ some (_, id) ↦ id | none ↦ input ]
