-- ===== src/Images.antt =====
-- src/images.rs: the images of a file, their cache, and the content blocks that carry them.
pub mod Base64
pub mod Ids
pub mod Fetch
pub mod Blocks
mod Tests
use figmog.Prelude.{
  ℕ, zero, suc, Bool, true, false, not, ◌&&◌, ◌||◌, Option, none, some, List, [], ◌∷◌, ◌++◌,
}
use figmog.Prelude.Tests.{◌==◌, leb, nat_eq, if◌then◌else◌}
use figmog.Prelude.Lists.{length, all}
use figmog.Prelude.Text.{Str, lit, str_eq, is_alnum, split, decimal, to_ascii_lowercase}
use figmog.Prelude.Members.{member}
use figmog.Ident.{normalize_node_ref}
use figmog.Json.{Value, bool, num, str, object, get, as_str, as_array, ◌>>=◌}
use figmog.Model.{ImageBlobRec}
use figmog.Cache.{fnv, offset_basis, hex_pad}
use figmog.Flatten.Walk.{or_else}
use figmog.Store.Stream.{filter_map}

abbrev pub render : Str
render = lit "render"

abbrev pub fill : Str
fill = lit "fill"

-- the dash is U+2014
abbrev pub no_token_msg : Str
no_token_msg =
    lit "FIGMA_TOKEN not set " ++ (0xe2 ∷ 0x80 ∷ 0x94 ∷ lit " required for image downloads")

-- The bytes that are hashed: the four parts, with NUL between them.
abbrev pub image_key_bytes : Str → Str → Str → ℕ → Str
image_key_bytes kind subject format scale_milli =
    kind ++ (0 ∷ subject ++ (0 ∷ format ++ (0 ∷ decimal scale_milli)))

unfoldable pub image_key : Str → Str → Str → ℕ → Str
unfolding fnv hex_pad
image_key kind subject format scale_milli =
    hex_pad 16 (fnv offset_basis (image_key_bytes kind subject format scale_milli)) []

-- The loop over the ids, with the ones that have been seen.
unfoldable pub normalize_from : List Str → List Str → List Str
normalize_from seen [] = []
normalize_from seen (raw ∷ ids) =
    let id = normalize_node_ref raw in
    elim (member id seen) [
      | true ↦ normalize_from seen ids
      | false ↦ id ∷ normalize_from (id ∷ seen) ids
    ]

unfoldable pub normalize_ids : List Str → List Str
unfolding normalize_from
normalize_ids ids = normalize_from [] ids

pub record ImageItem : Type 0 where
  pub subject : Str
  pub kind : Str
  pub format : Str
  pub bytes : Str
  pub cached : Bool
  pub error : Option Str

abbrev pub subject_key : Str → Str
subject_key kind = if kind == render then lit "id" else lit "ref"

abbrev pub error_field : Option Str → List (Str × Value)
error_field none = []
error_field (some e) = (lit "error", str e) ∷ []

unfoldable pub manifest_entry : ImageItem → Value
manifest_entry i = object (
    (subject_key i.kind, str i.subject)
    ∷ (lit "kind", str i.kind)
    ∷ (lit "format", str i.format)
    ∷ (lit "bytes", num (decimal (length i.bytes)))
    ∷ (lit "cached", bool i.cached)
    ∷ error_field i.error)

unfoldable pub matches_identity : ImageBlobRec → Str → Str → Str → ℕ → Bool
matches_identity rec kind subject format scale_milli =
    if not (rec.kind == kind) || not (rec.subject == subject)
    then false
    else not (kind == render) || (rec.format == format && rec.scale_milli == scale_milli)

abbrev pub error_item : Str → Str → Str → Str → ImageItem
error_item kind subject format error = record {
  subject = subject;
  kind = kind;
  format = format;
  bytes = [];
  cached = false;
  error = some error;
}

abbrev pub no_token_item : Str → Str → Str → ImageItem
no_token_item kind subject format = error_item kind subject format no_token_msg

abbrev pub image_ref : Value → Option Str
image_ref f =
    if is_image (get f (lit "type") >>= as_str) then get f (lit "imageRef") >>= as_str else none
  where
    is_image : Option Str → Bool
    is_image none = false
    is_image (some t) = t == lit "IMAGE"

unfoldable pub extract_image_refs : Value → List Str
unfolding filter_map
extract_image_refs raw = elim (get raw (lit "fills") >>= as_array) [
  | none ↦ []
  | some fills ↦ filter_map image_ref fills
]

-- The part after the last dot: `path.rfind('.')` and the text after it.
abbrev pub extension : List Str → Option Str
extension [] = none
extension (_ ∷ []) = none
extension (_ ∷ e ∷ []) = some e
extension (_ ∷ e ∷ f ∷ parts) = extension (e ∷ f ∷ parts)

abbrev pub first_part : List Str → Str
first_part [] = []
first_part (p ∷ _) = p

-- For an extension of ASCII letters and digits, `len` and the characters are those of the bytes.
unfoldable pub infer_fill_format : Str → Str
unfolding split
infer_fill_format url = elim (extension (split b'.' (first_part (split b'?' url)))) [
  | none ↦ lit "png"
  | some ext ↦
      if not (ext == []) && (leb (length ext) 4 && all is_alnum ext)
      then to_ascii_lowercase ext
      else lit "png"
]

unfoldable pub mime_for : Str → Str
mime_for format =
    let f = to_ascii_lowercase format in
    if f == lit "svg"
    then lit "image/svg+xml"
    else if f == lit "jpg" || f == lit "jpeg"
    then lit "image/jpeg"
    else if f == lit "gif"
    then lit "image/gif"
    else lit "image/png"
