-- ===== src/Serve/Frames/Laws.antt =====
-- What `read_bounded_line` of src/serve.rs gives, against the text that arrives.
use mathlib.Core.List.{append_assoc, append-nil}
use mathlib.Core.Option.{some-injective}
use figmog.Prelude.{
  ℕ, ◌+◌, ◌≤◌, ◌≡◌, ◌≢◌, ◌⊎◌, inl, inr, refl, sym, ap, ◌∙◌, true, false, Option, none, some, [],
  ◌∷◌, ◌++◌, arith,
}
use figmog.Prelude.Tests.{◌==◌, ltb, nat_eq, Bool-cases, Option-cases}
use figmog.Prelude.Lists.{length, length-append, All}
use figmog.Prelude.Text.{Str, lit, str_eq, split_once}
use figmog.Prelude.Splitting.{split_once-cases, split_once-found, split_once-passed}
use figmog.Ident.{from_utf8_lossy}
use figmog.Api.{Result, ok, err}
use figmog.Serve.Frames.{
  newline, max_frame_bytes, Reader, unread, fill, keep, strip_end, frame_of, finish,
  read_bounded_line,
}

-- The bytes that have arrived, all at once.
abbrev pub joined : Reader → Str
joined [] = []
joined (ok s ∷ reader) = s ++ joined reader
joined (err e ∷ reader) = joined reader

-- Every read gives some bytes.
abbrev pub Arrives : Result Str Str → Type 0
Arrives (ok []) = ⊥
Arrives (ok (c ∷ s)) = Unit
Arrives (err e) = ⊥

-- The specification: the text up to its first newline, and what comes after it.
abbrev pub first_frame : Str → Result Str (Option Str) × Str
first_frame text = elim (split_once newline text) [
  | none ↦ (frame_of text, [])
  | some (line, rest) ↦ (frame_of (line ++ (newline ∷ [])), rest)
]

Filled : Str → Str → Result Str Str × Reader → Type 0
Filled buf text (got, left) =
    All Arrives left
    × (((split_once newline text ≡ none) × (got ≡ ok (buf ++ text)) × (joined left ≡ []))
        ⊎ ((line : Str) × (rest : Str) × (split_once newline text ≡ some (line, rest))
            × (got ≡ ok (buf ++ (line ++ (newline ∷ []))))
            × (joined left ≡ rest)))

unread-Arrives : (s : Str) (reader : Reader) → All Arrives reader → All Arrives (unread s reader)
unread-Arrives [] reader a = a
unread-Arrives (c ∷ s) reader a = (tt, a)

joined-unread : (s : Str) (reader : Reader) → joined (unread s reader) ≡ s ++ joined reader
joined-unread [] reader = refl
joined-unread (c ∷ s) reader = refl

within : (cap : ℕ) (a b c : Str) → length (a ++ (b ++ c)) ≤ cap → ltb cap (length (a ++ b)) ≡ false
within cap a b c h = ground (arith, length-append a (b ++ c), length-append b c, length-append a b)

fill_line :
    (cap : ℕ) (buf : Str) (c : ℕ) (s : Str) (reader : Reader) (line rest : Str)
    → split_once newline (c ∷ s) ≡ some (line, rest)
    → fill cap buf (ok (c ∷ s) ∷ reader)
      ≡ (ok (buf ++ (line ++ (newline ∷ []))), unread rest reader)
unfolding fill
fill_line cap buf c s reader line rest m = rw (m, fill) refl

fill_on :
    (cap : ℕ) (buf : Str) (c : ℕ) (s : Str) (reader : Reader)
    → split_once newline (c ∷ s) ≡ none
    → ltb cap (length (buf ++ (c ∷ s))) ≡ false
    → fill cap buf (ok (c ∷ s) ∷ reader) ≡ fill cap (buf ++ (c ∷ s)) reader
unfolding fill
fill_on cap buf c s reader m h = rw (m, fill, h) refl

fill_over :
    (cap : ℕ) (buf : Str) (c : ℕ) (s : Str) (reader : Reader) (buf' : Str)
    → split_once newline (c ∷ s) ≡ none
    → ltb cap (length (buf ++ (c ∷ s))) ≡ true
    → (fill cap buf (ok (c ∷ s) ∷ reader)).0 ≢ ok buf'
unfolding fill
fill_over cap buf c s reader buf' m h = λ e.
    let bad : err (lit "frame exceeds the cap with no newline") ≡ ok buf' = rw (m, fill, h) at e in
    cc

passed-Filled :
    (buf s text : Str) (r : Result Str Str × Reader)
    → split_once newline s ≡ none
    → Filled (buf ++ s) text r
    → Filled buf (s ++ text) r
unfolding Filled
passed-Filled buf s text (got, left) m (a, inl (n, g, j)) = (
  a,
  inl (
    split_once-passed newline s text m ∙ rw n refl,
    g ∙ ap (λ b. ok b) (append_assoc buf s text),
    j,
  ),
)
passed-Filled buf s text (got, left) m (a, inr (line, rest, n, g, j)) = (
  a,
  inr (
    s ++ line,
    rest,
    split_once-passed newline s text m ∙ rw n refl,
    g
        ∙ ap (λ b. ok b)
            (append_assoc buf s (line ++ (newline ∷ []))
              ∙ ap (λ b. buf ++ b) (sym (append_assoc s line (newline ∷ [])))),
    j,
  ),
)

fill_lem :
    (cap : ℕ) (buf : Str) (reader : Reader)
    → All Arrives reader
    → length (buf ++ joined reader) ≤ cap
    → Filled buf (joined reader) (fill cap buf reader)
unfolding fill Filled split_once
fill_lem cap buf [] a h = (tt, inl (refl, ap (λ b. ok b) (sym (append-nil buf)), refl))
fill_lem cap buf (err e ∷ reader) (a, rest) h = absurd a
fill_lem cap buf (ok [] ∷ reader) (a, rest) h = absurd a
fill_lem cap buf (ok (c ∷ s) ∷ reader) (a, arrives) h =
    elim (Option-cases (split_once newline (c ∷ s))) [
      | inl m ↦
          let short : length ((buf ++ (c ∷ s)) ++ joined reader) ≤ cap =
            rw (append_assoc buf (c ∷ s) (joined reader)) h in
          rw (fill_on cap buf c s reader m (within cap buf (c ∷ s) (joined reader) h)) (
            passed-Filled buf (c ∷ s) (joined reader) (fill cap (buf ++ (c ∷ s)) reader) m
              (fill_lem cap (buf ++ (c ∷ s)) reader arrives short))
      | inr ((line, rest), m) ↦ rw (fill_line cap buf c s reader line rest m) (
        unread-Arrives rest reader arrives,
        inr (
          line,
          rest ++ joined reader,
          split_once-found newline (c ∷ s) (joined reader) line rest m,
          refl,
          joined-unread rest reader,
        ),
      )
    ]

finish-first_frame :
    (text : Str) (r : Result Str Str × Reader)
    → Filled [] text r
    → ((finish r).0 ≡ (first_frame text).0)
      × (joined (finish r).1 ≡ (first_frame text).1)
      × All Arrives (finish r).1
unfolding Filled
finish-first_frame text (got, left) (a, inl (n, g, j)) = rw (g, n, first_frame) (refl, j, a)
finish-first_frame text (got, left) (a, inr (line, rest, n, g, j)) =
    rw (g, n, first_frame) (refl, j, a)

-- Where every read gives some bytes, and all of them are within the cap, a frame is the text up to the
-- first newline, without the newlines and returns at its end, and what follows it is left for the next
-- call: neither depends on how the bytes are cut into reads. Again every read gives some bytes.
pub read_bounded_line_lem :
    (reader : Reader)
    → All Arrives reader
    → length (joined reader) ≤ max_frame_bytes
    → ((read_bounded_line reader).0 ≡ (first_frame (joined reader)).0)
      × (joined (read_bounded_line reader).1 ≡ (first_frame (joined reader)).1)
      × All Arrives (read_bounded_line reader).1
unfolding read_bounded_line
read_bounded_line_lem reader a h =
    finish-first_frame (joined reader) (fill max_frame_bytes [] reader)
      (fill_lem max_frame_bytes [] reader a h)

-- A read gives at most so many bytes.
abbrev pub AtMost : ℕ → Result Str Str → Type 0
AtMost k (ok s) = length s ≤ k
AtMost k (err e) = Unit

line-length :
    (c : ℕ) (s line rest : Str)
    → split_once newline (c ∷ s) ≡ some (line, rest)
    → length (line ++ (newline ∷ [])) ≤ length (c ∷ s)
line-length c s line rest m = elim (split_once-cases newline (c ∷ s)) [
  | inl n ↦ cc
  | inr (l, r, e, w, n) ↦
      let p : Path (Option (Str × Str)) (some (l, r)) (some (line, rest)) = sym e ∙ m in
      let q : Path (Str × Str) (l, r) (line, rest) = some-injective (l, r) (line, rest) p in
      let w' : c ∷ s ≡ line ++ (newline ∷ rest) = w ∙ ap (λ z. z.0 ++ (newline ∷ z.1)) q in
      omega (
        arith,
        ap (λ t. length t) w',
        length-append line (newline ∷ []),
        length-append line (newline ∷ rest),
      )
]

fill-length :
    (cap k : ℕ) (buf : Str) (reader : Reader) (got : Str)
    → All (AtMost k) reader
    → length buf ≤ cap
    → (fill cap buf reader).0 ≡ ok got
    → length got ≤ cap + k
unfolding fill
fill-length cap k buf [] got a h e = let p : buf ≡ got = cc in omega (arith, ap (λ b. length b) p)
fill-length cap k buf (err x ∷ reader) got a h e = cc
fill-length cap k buf (ok [] ∷ reader) got a h e =
    let p : buf ≡ got = cc in omega (arith, ap (λ b. length b) p)
fill-length cap k buf (ok (c ∷ s) ∷ reader) got (a, arrives) h e =
    elim (Option-cases (split_once newline (c ∷ s))) [
      | inl m ↦ elim (Bool-cases (ltb cap (length (buf ++ (c ∷ s))))) [
        | inl l ↦ absurd (fill_over cap buf c s reader got m l e)
        | inr l ↦
            fill-length cap k (buf ++ (c ∷ s)) reader got arrives (ground arith)
              (rw (sym (fill_on cap buf c s reader m l)) e)
      ]
      | inr ((line, rest), m) ↦
          let p : ok (buf ++ (line ++ (newline ∷ []))) ≡ ok got =
            sym (ap (λ r. r.0) (fill_line cap buf c s reader line rest m)) ∙ e in
          let q : buf ++ (line ++ (newline ∷ [])) ≡ got = cc in
          omega (
            arith,
            ap (λ b. length b) q,
            length-append buf (line ++ (newline ∷ [])),
            line-length c s line rest m,
          )
    ]

length-keep : (c : ℕ) (s : Str) → length (keep c s) ≤ 1 + length s
length-keep c [] = ground arith
length-keep c (d ∷ s) = omega arith

length-strip_end : (s : Str) → length (strip_end s) ≤ length s
unfolding strip_end
length-strip_end [] = omega arith
length-strip_end (c ∷ s) = omega (arith, length-keep c (strip_end s), length-strip_end s)

frame_of-length : (buf frame : Str) → frame_of buf ≡ ok (some frame) → length frame ≤ length buf
frame_of-length [] frame e = cc
frame_of-length (c ∷ s) frame e =
    let line = strip_end (c ∷ s) in
    elim (Bool-cases (from_utf8_lossy line == line)) [
      | inl m ↦
          let p : ok (some line) ≡ ok (some frame) = rw m at e in
          let q : line ≡ frame = cc in omega (arith, ap (λ b. length b) q, length-strip_end (c ∷ s))
      | inr m ↦ let bad : err (lit "invalid utf-8 sequence") ≡ ok (some frame) = rw m at e in cc
    ]

finish-length :
    (n : ℕ) (frame : Str) (r : Result Str Str × Reader)
    → ((got : Str) → r.0 ≡ ok got → length got ≤ n)
    → (finish r).0 ≡ ok (some frame)
    → length frame ≤ n
finish-length n frame (err x, left) h e = cc
finish-length n frame (ok buf, left) h e = omega (arith, h buf refl, frame_of-length buf frame e)

-- Whatever arrives, errors and a text without a newline included, a frame that is given is not longer
-- than the cap and one read more.
pub read_bounded_line_bounds :
    (k : ℕ) (reader : Reader) (frame : Str)
    → All (AtMost k) reader
    → (read_bounded_line reader).0 ≡ ok (some frame)
    → length frame ≤ max_frame_bytes + k
unfolding read_bounded_line
read_bounded_line_bounds k reader frame a e =
    finish-length (max_frame_bytes + k) frame (fill max_frame_bytes [] reader)
      (λ got h. fill-length max_frame_bytes k [] reader got a (omega arith) h) e
