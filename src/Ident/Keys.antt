-- ===== src/Ident/Keys.antt =====
-- What `parse_file_ref` accepts.
use mathlib.Core.Bool.{and-eq-true_iff}
use figmog.Prelude.{
  true, false, ◌&&◌, ◌≡◌, ◌⊎◌, inl, inr, refl, none, some, List, [], ◌∷◌, ◌++◌, arith,
}
use figmog.Prelude.Tests.{Bool-cases, Option-cases, nat_eq}
use figmog.Prelude.Lists.{all}
use figmog.Prelude.Text.{Str, lit, after, split, is_alnum, str_beq_iff}
use figmog.Prelude.Splitting.{Without, split-append}
use figmog.Ident.{is_key, is_route, url_key, parse_file_ref}

url_key-is_key : (parts : List Str) (k : Str) → url_key parts ≡ some k → is_key k ≡ true
url_key-is_key [] k h = cc
url_key-is_key (r ∷ []) k h = cc
url_key-is_key (r ∷ s ∷ rest) k h = elim (Bool-cases (is_route r && is_key s)) [
  | inl e ↦
      let same : some s ≡ some k = rw e at h in
      let e' : s ≡ k = cc in rw e' at ((and-eq-true_iff (is_route r) (is_key s)).0 e).1
  | inr e ↦ let bad : none ≡ some k = rw e at h in cc
]

parsed-is_key : (input k : Str) → parse_file_ref input ≡ some k → is_key k ≡ true
unfolding parse_file_ref
parsed-is_key input k h = elim (Bool-cases (is_key input)) [
  | inl e ↦ let same : some input ≡ some k = rw e at h in let e' : input ≡ k = cc in rw e' at e
  | inr e ↦ elim (Option-cases (after (lit "figma.com/") input)) [
    | inl m ↦ let bad : none ≡ some k = rw (e, m) at h in cc
    | inr (rest, m) ↦ url_key-is_key (split b'/' rest) k (rw (e, m) at h)
  ]
]

-- Whatever is accepted as a file reference, bare or in a URL, the result is a file key: ten or more
-- ASCII letters and digits. Such a key, given again, is accepted as itself.
pub parse_file_ref-is_key :
    (input k : Str)
    → parse_file_ref input ≡ some k
    → (is_key k ≡ true) × (parse_file_ref k ≡ some k)
unfolding parse_file_ref
parse_file_ref-is_key input k h = let valid = parsed-is_key input k h in (valid, rw valid)

pub alnum-no_slash : (s : Str) → all is_alnum s ≡ true → Without b'/' s
alnum-no_slash [] h = tt
alnum-no_slash (c ∷ s) h = (ground arith, alnum-no_slash s (ground arith))

pub is_route-cases :
    (r : Str) → is_route r ≡ true → (r ≡ lit "design") ⊎ (r ≡ lit "file") ⊎ (r ≡ lit "board")
is_route-cases r h =
    ground
      (arith, str_beq_iff r (lit "design"), str_beq_iff r (lit "file"), str_beq_iff r (lit "board"))

is_route-no_slash : (r : Str) → is_route r ≡ true → Without b'/' r
is_route-no_slash r h = elim (is_route-cases r h) [
  | inl e ↦ rw e (alnum-no_slash (lit "design") refl)
  | inr (inl e) ↦ rw e (alnum-no_slash (lit "file") refl)
  | inr (inr e) ↦ rw e (alnum-no_slash (lit "board") refl)
]

url-not_key : (s : Str) → is_key (lit "https://www.figma.com/" ++ s) ≡ false
url-not_key s = ground arith

pub is_key-alnum : (k : Str) → is_key k ≡ true → all is_alnum k ≡ true
is_key-alnum k h = ground arith

-- A URL of one of the three routes, with a file key and anything behind a slash after it, gives
-- that key.
pub parse_file_ref-url :
    (route key rest : Str)
    → is_route route ≡ true
    → is_key key ≡ true
    → parse_file_ref (lit "https://www.figma.com/" ++ (route ++ (b'/' ∷ (key ++ (b'/' ∷ rest)))))
      ≡ some key
unfolding parse_file_ref
parse_file_ref-url route key rest r k = rw (
  url-not_key (route ++ (b'/' ∷ (key ++ (b'/' ∷ rest)))),
  split-append b'/' route (key ++ (b'/' ∷ rest)) (is_route-no_slash route r),
  split-append b'/' key rest (alnum-no_slash key (is_key-alnum key k)),
  r,
  k,
)
