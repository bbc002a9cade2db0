-- ===== src/Ident/Urls.antt =====
-- The node ids and the keys that `parse_node_ref` finds in a URL.
use mathlib.Core.List.{append_assoc}
use figmog.Prelude.{ℕ, true, false, ◌≡◌, inl, inr, refl, ap, ◌∙◌, some, [], ◌∷◌, ◌++◌, ◌<◌, arith}
use figmog.Prelude.Tests.{◌==◌, nat_eq}
use figmog.Prelude.Lists.{all, All, All-append}
use figmog.Prelude.Text.{Str, lit, str_beq, is_digit, is_alnum}
use figmog.Prelude.Splitting.{Without, Without-of_all, split_once-append, split_missing}
use figmog.Ident.{is_key, is_route, digits, query_param, parse_file_ref, parse_node_ref}
use figmog.Ident.Keys.{parse_file_ref-url, is_key-alnum, is_route-cases}
use figmog.Ident.NodeIds.{normalize_node_id-dash, digits-all, digits-Without}
use figmog.Ident.Decoding.{percent_decode-Without}

-- A link to a frame: the route, the key, the title, and the id in the form `12-34`.
abbrev pub page_part : Str → Str → Str → Str
page_part route key title =
    lit "https://www.figma.com/" ++ (route ++ (b'/' ∷ (key ++ (b'/' ∷ title))))

abbrev pub node_url : Str → Str → Str → Str → Str → Str
node_url route key title a b =
    page_part route key title ++ (b'?' ∷ (lit "node-id=" ++ (a ++ (b'-' ∷ b))))

id-Without :
    (c : ℕ) (a b : Str)
    → is_digit c ≡ false
    → (b'-' == c) ≡ false
    → digits a ≡ true
    → digits b ≡ true
    → Without c (a ++ (b'-' ∷ b))
id-Without c a b n m p q =
    All-append (λ d. (d == c) ≡ false) a (b'-' ∷ b) (digits-Without c a n (digits-all a p))
      (m, digits-Without c b n (digits-all b q))

ascii_of_digits : (s : Str) → all is_digit s ≡ true → All (λ c. c < 128) s
ascii_of_digits [] h = tt
ascii_of_digits (c ∷ s) h = (ground arith, ascii_of_digits s (ground arith))

id-ascii : (a b : Str) → digits a ≡ true → digits b ≡ true → All (λ c. c < 128) (a ++ (b'-' ∷ b))
id-ascii a b p q =
    All-append (λ c. c < 128) a (b'-' ∷ b) (ascii_of_digits a (digits-all a p))
      (omega arith, ascii_of_digits b (digits-all b q))

module _ (a b : Str) (p : digits a ≡ true) (q : digits b ≡ true) where
  abbrev query : Str
  query = lit "node-id=" ++ (a ++ (b'-' ∷ b))

  query-Without :
      (c : ℕ)
      → is_digit c ≡ false
      → (b'-' == c) ≡ false
      → Without c (lit "node-id=")
      → Without c query
  query-Without c n m h =
      All-append (λ d. (d == c) ≡ false) (lit "node-id=") (a ++ (b'-' ∷ b)) h
        (id-Without c a b n m p q)

  query_param-id :
      (page : Str)
      → Without b'?' page
      → query_param (page ++ (b'?' ∷ query)) (lit "node-id") ≡ some (a ++ (b'-' ∷ b))
  unfolding query_param str_beq
  query_param-id page h = rw (
    split_once-append b'?' page query h,
    split_missing b'#' query
        (query-Without b'#' refl refl (Without-of_all b'#' (lit "node-id=") refl)),
    split_missing b'&' query
        (query-Without b'&' refl refl (Without-of_all b'&' (lit "node-id=") refl)),
    query_param,
    percent_decode-Without (a ++ (b'-' ∷ b)) (id-Without b'%' a b refl refl p q) (id-ascii a b p q),
  )

abbrev Plain : ℕ → Type 0
Plain d = (d == b'?') ≡ false

alnum-Without : (s : Str) → all is_alnum s ≡ true → Without b'?' s
alnum-Without [] h = tt
alnum-Without (c ∷ s) h = (ground arith, alnum-Without s (ground arith))

route-Without : (r : Str) → is_route r ≡ true → Without b'?' r
route-Without r h = elim (is_route-cases r h) [
  | inl e ↦ rw e (alnum-Without (lit "design") refl)
  | inr (inl e) ↦ rw e (alnum-Without (lit "file") refl)
  | inr (inr e) ↦ rw e (alnum-Without (lit "board") refl)
]

page_part-Without :
    (route key title : Str)
    → is_route route ≡ true
    → is_key key ≡ true
    → Without b'?' title
    → Without b'?' (page_part route key title)
page_part-Without route key title r k t =
    All-append Plain (lit "https://www.figma.com/") (route ++ (b'/' ∷ (key ++ (b'/' ∷ title))))
      (Without-of_all b'?' (lit "https://www.figma.com/") refl)
      (All-append Plain route (b'/' ∷ (key ++ (b'/' ∷ title))) (route-Without route r) (
        refl,
        All-append Plain key (b'/' ∷ title) (alnum-Without key (is_key-alnum key k)) (refl, t),
      ))

page_part-append :
    (route key title rest : Str)
    → page_part route key title ++ rest ≡ page_part route key (title ++ rest)
page_part-append route key title rest =
    ap (λ t. lit "https://www.figma.com/" ++ t) (simp append_assoc)

-- A link of one of the three routes, with a file key, a title without a question mark and a node
-- id of two runs of digits with a dash, names its file and the node's id with a colon.
pub parse_node_ref-url :
    (route key title a b : Str)
    → is_route route ≡ true
    → is_key key ≡ true
    → Without b'?' title
    → digits a ≡ true
    → digits b ≡ true
    → parse_node_ref (node_url route key title a b) ≡ some (some key, a ++ (b':' ∷ b))
unfolding parse_node_ref
parse_node_ref-url route key title a b r k t p q =
    rw
      (query_param-id a b p q (page_part route key title) (page_part-Without route key title r k t))
      (rw (normalize_node_id-dash a b p q) (
        ap (λ f. some (f, a ++ (b':' ∷ b)))
          (ap parse_file_ref (page_part-append route key title (b'?' ∷ query a b p q))
            ∙ parse_file_ref-url route key (title ++ (b'?' ∷ query a b p q)) r k)))
