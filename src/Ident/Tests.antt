-- ===== src/Ident/Tests.antt =====
-- The unit tests of src/ident.rs.
use figmog.Prelude.{◌≡◌, refl, none, some, [], ◌∷◌}
use figmog.Prelude.Text.{Str, lit, str_beq}
use figmog.Prelude.Tests.{◌==◌, nat_eq}
use figmog.Prelude.{not, Bool, true, arith, ℕ, ◌++◌}
use figmog.Ident.{
  parse_file_ref, normalize_node_id, parse_node_ref, percent_decode, normalize_node_ref, is_key,
  is_route,
}
use figmog.Ident.Keys.{parse_file_ref-is_key}
use figmog.Ident.Decoding.{percent_decode-encode, percent_encode}
use figmog.Ident.Urls.{node_url, parse_node_ref-url}

parses_design_url :
    parse_file_ref (lit "https://www.figma.com/design/flAtUnMfzvA5daBSTFQK35/g3d?node-id=0-1")
    ≡ some (lit "flAtUnMfzvA5daBSTFQK35")
unfolding parse_file_ref str_beq
parses_design_url = refl

rejects_garbage : parse_file_ref (lit "https://example.com/nope") ≡ none
unfolding parse_file_ref
rejects_garbage = refl

normalizes_node_ids :
    (normalize_node_id (lit "12-345") ≡ lit "12:345")
    × (normalize_node_id (lit "I206:7;104:22") ≡ lit "I206:7;104:22")
unfolding normalize_node_id
normalizes_node_ids = (refl, refl)

parse_node_ref_both :
    parse_node_ref (lit "https://www.figma.com/design/flAtUnMfzvA5daBSTFQK35/g?node-id=1%3A2&t=x-1")
    ≡ some (some (lit "flAtUnMfzvA5daBSTFQK35"), lit "1:2")
unfolding parse_node_ref str_beq
parse_node_ref_both = refl

parse_node_ref_no_id : parse_node_ref (lit "https://www.figma.com/file/abc/whatever") ≡ none
unfolding parse_node_ref
parse_node_ref_no_id = refl

-- "%aé" and "%é", as their bytes
percent_decode_multibyte :
    (percent_decode (b'%' ∷ b'a' ∷ 0xc3 ∷ 0xa9 ∷ []) ≡ b'%' ∷ b'a' ∷ 0xc3 ∷ 0xa9 ∷ [])
    × (percent_decode (b'%' ∷ 0xc3 ∷ 0xa9 ∷ []) ≡ b'%' ∷ 0xc3 ∷ 0xa9 ∷ [])
    × (percent_decode (lit "%a") ≡ lit "%a")
    × (percent_decode (lit "1%3A2") ≡ lit "1:2")
unfolding percent_decode
percent_decode_multibyte = (refl, refl, refl, refl)

normalize_node_ref_falls_back :
    normalize_node_ref (lit "https://www.figma.com/file/abc/whatever")
    ≡ lit "https://www.figma.com/file/abc/whatever"
unfolding normalize_node_ref
normalize_node_ref_falls_back = refl

abbrev design_url : Str
design_url = lit "https://www.figma.com/design/flAtUnMfzvA5daBSTFQK35/g3d?node-id=0-1"

abbrev file_key : Str
file_key = lit "flAtUnMfzvA5daBSTFQK35"

parse_file_ref-is_key_example : (is_key file_key ≡ true) × (parse_file_ref file_key ≡ some file_key)
parse_file_ref-is_key_example = parse_file_ref-is_key design_url file_key parses_design_url

file_key-is_key : is_key file_key ≡ true
file_key-is_key = refl

design-is_route : is_route (lit "design") ≡ true
unfolding str_beq
design-is_route = refl

abbrev not_percent : ℕ → Bool
not_percent c = not (c == b'%')

percent_decode-encode_example :
    percent_decode (percent_encode not_percent (lit "1:2 %")) ≡ lit "1:2 %"
percent_decode-encode_example =
    percent_decode-encode not_percent (lit "1:2 %") refl
      (omega arith, (omega arith, (omega arith, (omega arith, (omega arith, tt)))))

parse_node_ref-url_example :
    parse_node_ref (node_url (lit "design") file_key (lit "g3d") (lit "1") (lit "2"))
    ≡ some (some file_key, lit "1" ++ (b':' ∷ lit "2"))
parse_node_ref-url_example =
    parse_node_ref-url (lit "design") file_key (lit "g3d") (lit "1") (lit "2") design-is_route
      file_key-is_key (refl, (refl, (refl, tt))) refl refl
