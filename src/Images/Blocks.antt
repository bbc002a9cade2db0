-- ===== src/Images/Blocks.antt =====
-- `to_mcp_content` and `oversized_note` of src/images.rs.
use figmog.Prelude.{ℕ, false, none, some, List, [], ◌∷◌, ◌++◌, map}
use figmog.Prelude.Tests.{◌==◌, leb, if◌then◌else◌}
use figmog.Prelude.Lists.{length}
use figmog.Prelude.Text.{Str, lit, str_eq, decimal, to_ascii_lowercase}
use figmog.Ident.{from_utf8_lossy}
use figmog.Json.{Value, bool, str, Serde, array, object}
use figmog.Images.{ImageItem, manifest_entry, mime_for, subject_key}
use figmog.Images.Base64.{base64_encode}

abbrev pub content_size_cap : ℕ
content_size_cap = 1048576

-- The fields of a block, before the one that names its item. The dash is U+2014.
abbrev pub oversized_note : ImageItem → Str → ℕ → List (Str × Value)
oversized_note item key encoded_len =
    (lit "type", str (lit "text"))
    ∷ (
      lit "text",
      str (
          item.kind
          ++ (lit " "
              ++ (key
                  ++ (lit "="
                      ++ (item.subject
                          ++ (lit " is "
                              ++ (decimal encoded_len
                                  ++ (lit " bytes encoded, over the 1MB inline cap "
                                      ++ ((0xe2 ∷ 0x80 ∷ 0x94 ∷ [])
                                          ++ (lit " run `figmog images "
                                              ++ (item.subject
                                                  ++ lit
                                                      " --out <dir>` to download it to disk."))))))))))),
    )
    ∷ []

abbrev pub payload : ImageItem → Str → Str → Str → Str → List (Str × Value)
payload item key kind field text =
    if leb (length text) content_size_cap
    then (lit "type", str kind)
      ∷ (field, str text)
      ∷ (lit "mimeType", str (mime_for item.format))
      ∷ []
    else oversized_note item key (length text)

unfoldable pub block : ImageItem → Value
unfolding base64_encode mime_for
block item =
    let key = subject_key item.kind in
    let fields =
      if to_ascii_lowercase item.format == lit "svg"
      then payload item key (lit "text") (lit "text") (from_utf8_lossy item.bytes)
      else payload item key (lit "image") (lit "data") (base64_encode item.bytes) in
    object (fields ++ ((key, str item.subject) ∷ []))

unfoldable pub blocks : List ImageItem → List Value
unfolding block
blocks [] = []
blocks (item ∷ items) = elim item.error [ some _ ↦ blocks items | none ↦ block item ∷ blocks items ]

unfoldable pub to_mcp_content : Serde → List ImageItem → Value
unfolding blocks manifest_entry
to_mcp_content sd items = object (
    (
      lit "content",
      array (
          object (
            (lit "type", str (lit "text"))
            ∷ (lit "text", str (sd.to_string (array (map manifest_entry items))))
            ∷ [])
          ∷ blocks items),
    )
    ∷ (lit "isError", bool false)
    ∷ [])
