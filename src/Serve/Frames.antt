-- ===== src/Serve/Frames.antt =====
-- `read_bounded_line` of src/serve.rs: one frame of a connection, however its bytes arrive.
pub mod Laws
use mathlib.Core.List.{append_assoc, append-nil}
use figmog.Prelude.{
  ℕ, ◌+◌, ◌*◌, ◌≤◌, ◌≡◌, ◌⊎◌, inl, inr, refl, sym, ap, ◌∙◌, Bool, true, false, ◌||◌, Option, none,
  some, List, [], ◌∷◌, ◌++◌, map, arith,
}
use figmog.Prelude.Tests.{◌==◌, ltb, nat_eq, Bool-cases, if◌then◌else◌}
use figmog.Prelude.Lists.{length, length-append, All}
use figmog.Prelude.Text.{Str, lit, str_eq, split_once}
use figmog.Ident.{from_utf8_lossy}
use figmog.Api.{Result, ok, err}

abbrev pub max_frame_bytes : ℕ
max_frame_bytes = 8 * 1024 * 1024

abbrev pub newline : ℕ
newline = 10

abbrev pub carriage_return : ℕ
carriage_return = 13

-- What successive calls of `fill_buf` give: bytes that have arrived, or an error. No bytes is the end.
abbrev pub Reader : Type 0
Reader = List (Result Str Str)

abbrev pub unread : Str → Reader → Reader
unread [] reader = reader
unread (c ∷ s) reader = ok (c ∷ s) ∷ reader

-- The loop, with the bytes so far. The bytes of a chunk after the newline are left for the next call.
unfoldable pub fill : ℕ → Str → Reader → Result Str Str × Reader
fill cap buf [] = (ok buf, [])
fill cap buf (err e ∷ reader) = (err e, reader)
fill cap buf (ok [] ∷ reader) = (ok buf, reader)
fill cap buf (ok (c ∷ s) ∷ reader) =
    let more = fill cap (buf ++ (c ∷ s)) reader in
    elim (split_once newline (c ∷ s)) [
      | some (line, rest) ↦ (ok (buf ++ (line ++ (newline ∷ []))), unread rest reader)
      | none ↦
          if ltb cap (length (buf ++ (c ∷ s)))
          then (err (lit "frame exceeds the cap with no newline"), reader)
          else more
    ]

abbrev pub keep : ℕ → Str → Str
keep c [] = if c == newline || c == carriage_return then [] else c ∷ []
keep c (d ∷ s) = c ∷ d ∷ s

-- `buf.pop()` while the last byte is a newline or a return
unfoldable pub strip_end : Str → Str
strip_end [] = []
strip_end (c ∷ s) = keep c (strip_end s)

-- `String::from_utf8`, which fails on what the lossy decoding changes
abbrev pub from_utf8 : Str → Result Str (Option Str)
from_utf8 bytes =
    if from_utf8_lossy bytes == bytes then ok (some bytes) else err (lit "invalid utf-8 sequence")

abbrev pub frame_of : Str → Result Str (Option Str)
frame_of [] = ok none
frame_of (c ∷ s) = from_utf8 (strip_end (c ∷ s))

abbrev pub finish : Result Str Str × Reader → Result Str (Option Str) × Reader
finish (err e, reader) = (err e, reader)
finish (ok buf, reader) = (frame_of buf, reader)

unfoldable pub read_bounded_line : Reader → Result Str (Option Str) × Reader
unfolding fill strip_end
read_bounded_line reader = finish (fill max_frame_bytes [] reader)
