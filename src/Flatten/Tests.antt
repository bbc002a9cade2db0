-- ===== src/Flatten/Tests.antt =====
-- A small file response, and the properties of flattening at it.
use figmog.Prelude.{◌≡◌, refl, none, some, [], ◌∷◌}
use figmog.Prelude.Lists.{All}
use figmog.Prelude.Text.{Str, lit, str_beq, decimal}
use figmog.Json.{Value, null, str, arr, obj, nil, cons, end, field, Serde}
use figmog.Api.{ok, err}
use figmog.Flatten.Scan.{scan_bound_variables, collect_aliases}
use figmog.Flatten.Walk.{walk}
use figmog.Flatten.Walk.Laws.{Linked, walk-Linked}
use figmog.Flatten.File.{Flattened, flatten_file, missing}
use figmog.Flatten.File.Laws.{FileRow, all_rows, flatten_file-FileRow}
use figmog.Flatten.File.Tables.{Tables, flatten_file-Tables}

-- A printer that keeps texts and forgets the rest is enough here.
abbrev print : Value → Str
print (str s) = s
print _ = lit "{}"

abbrev pub serde : Serde
serde = record {
  to_string = print;
  from_str = λ s. some (str s);
  as_f64 = λ v. some 0;
  pointer = λ v p. none;
}

abbrev alias : Value
alias =
    obj (field (lit "id") (str (lit "V:9")) (field (lit "type") (str (lit "VARIABLE_ALIAS")) end))

abbrev text_node : Value
text_node = obj (
    field (lit "boundVariables") (obj (field (lit "fills") (arr (cons alias nil)) end)) (
      field (lit "characters") (str (lit "hello"))
        (field (lit "id") (str (lit "1:2")) (field (lit "type") (str (lit "TEXT")) end))))

abbrev canvas : Value
canvas = obj (
    field (lit "children") (arr (cons text_node (cons null nil)))
      (field (lit "id") (str (lit "0:1")) (field (lit "type") (str (lit "CANVAS")) end)))

abbrev document : Value
document = obj (
    field (lit "children") (arr (cons canvas nil))
      (field (lit "id") (str (lit "0:0")) (field (lit "type") (str (lit "DOCUMENT")) end)))

abbrev component : Value
component = obj (field (lit "key") (str (lit "k")) (field (lit "name") (str (lit "Button")) end))

abbrev pub response : Value
response = obj (
    field (lit "components") (obj (field (lit "1:7") component end)) (
      field (lit "document") document (
        field (lit "lastModified") (str (lit "t1"))
          (field (lit "name") (str (lit "F")) (field (lit "version") (str (lit "100")) end)))))

abbrev pub flattened : Flattened
flattened = record {
  recs = all_rows serde response document;
  file = record { name = lit "F"; version = lit "100"; last_modified = lit "t1" };
}

pub flattens : flatten_file serde response ≡ ok flattened
unfolding flatten_file str_beq
flattens = refl

no_document :
    flatten_file serde (
      obj (
        field
          (lit "lastModified")
          (str (lit "t1"))
          (field (lit "name") (str (lit "F")) (field (lit "version") (str (lit "100")) end))))
    ≡ err (missing (lit "document"))
unfolding flatten_file str_beq
no_document = refl

scan_finds : scan_bound_variables text_node ≡ (lit "/fills/0", lit "V:9") ∷ []
unfolding scan_bound_variables collect_aliases decimal str_beq
scan_finds = refl

walk-Linked_example : Linked [] (walk serde document none 0 none)
walk-Linked_example = walk-Linked serde document

flatten_file-Tables_example : Tables response flattened
flatten_file-Tables_example = flatten_file-Tables serde response flattened flattens

pub flattened-FileRow : All FileRow flattened.recs
flattened-FileRow = flatten_file-FileRow serde response flattened flattens

flatten_file-FileRow_example : All FileRow flattened.recs
flatten_file-FileRow_example = flatten_file-FileRow serde response flattened flattens
