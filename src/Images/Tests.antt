-- ===== src/Images/Tests.antt =====
-- The images of src/images.rs at small inputs, and their properties there.
use figmog.Prelude.{◌≡◌, inl, inr, refl, false, true, some, List, [], ◌∷◌, ◌++◌, map, arith}
use figmog.Prelude.Text.{Str, lit, str_beq, str_beq_iff, decimal, split}
use figmog.Prelude.Members.{Distinct}
use figmog.Json.{str, object}
use figmog.Api.{Result, ok, err, ApiError, network}
use figmog.Cache.{table_get, fnv_step}
use figmog.Store.Stream.{filter_map}
use figmog.Store.Memory.{memory}
use figmog.Flatten.Tests.{serde}
use figmog.Images.{render, fill, image_key, matches_identity, ImageItem, infer_fill_format}
use figmog.Images.Base64.{base64_encode, base64_decode}
use figmog.Images.Base64.Laws.{base64_decode-encode}
use figmog.Images.Fetch.{ImagesApi, Scanned, scan, resolve, render_hit, fresh_item, image_row}
use figmog.Images.Fetch.Laws.{heading, resolve-scan}
use figmog.Images.Fetch.Cached.{Served, render_hit_sound}

encodes : base64_encode (lit "figma") ≡ lit "ZmlnbWE="
unfolding base64_encode
encodes = refl

base64_decode-encode_example :
    base64_decode (base64_encode (lit "hi!" ++ (255 ∷ []))) ≡ ok (lit "hi!" ++ (255 ∷ []))
base64_decode-encode_example =
    base64_decode-encode (lit "hi!" ++ (255 ∷ []))
      (omega arith, (omega arith, (omega arith, (omega arith, tt))))

infers : infer_fill_format (lit "https://s3/img/a.JPG?x=1.2") ≡ lit "jpg"
unfolding infer_fill_format split str_beq
infers = refl

abbrev ids : List Str
ids = lit "1:2" ∷ lit "3:4" ∷ []

ids-Distinct : Distinct ids
unfolding str_beq
ids-Distinct = (
  λ h. elim h [
    | inl p ↦ let bad : false ≡ true = (str_beq_iff (lit "1:2") (lit "3:4")).1 p in cc
    | inr k ↦ k
  ],
  ((λ h. h), tt),
)

-- An API that has a URL for the first id alone, and a download that gives its bytes.
abbrev figma : ImagesApi
figma = record {
  images_render =
      λ ids. ok (object ((lit "images", object ((lit "1:2", str (lit "u")) ∷ [])) ∷ []));
  file_image_fills = err (network []);
}

abbrev download : Str → Result ApiError Str
download url = ok (lit "PNG")

abbrev print : ApiError → Str
print e = []

resolve-scan_example :
    map heading
      (resolve serde memory print download []
        (scan serde memory [] ids (lit "png") 1000)
        (some figma)
        ids
        (lit "png")
        1000).1
    ≡ map (λ id. (render, id)) ids
      ++ map (λ r. (fill, r)) (scan serde memory [] ids (lit "png") 1000).fill_refs
resolve-scan_example =
    resolve-scan serde memory print download [] (some figma) ids (lit "png") 1000 ids-Distinct

abbrev scanned : Scanned
scanned = record { version = lit "100"; render_hits = []; fill_refs = []; fill_hits = [] }

-- The state after the fetch has the image, and it is served.
abbrev kept : memory.State
kept = (resolve serde memory print download [] scanned (some figma) ids (lit "png") 1000).0

abbrev shown : ImageItem
shown = record (fresh_item render (lit "1:2") (lit "png") (lit "PNG")) { cached = true }

served : render_hit serde memory kept (lit "100") (lit "png") 1000 (lit "1:2") ≡ some shown
unfolding resolve str_beq table_get filter_map image_key matches_identity decimal fnv_step
served = refl

render_hit_sound_example :
    Served serde memory
      (image_row serde memory kept (image_key render (lit "1:2") (lit "png") 1000))
      (lit "100")
      (lit "1:2")
      (lit "png")
      1000
      shown
render_hit_sound_example =
    render_hit_sound serde memory kept (lit "100") (lit "png") 1000 (lit "1:2") shown served
