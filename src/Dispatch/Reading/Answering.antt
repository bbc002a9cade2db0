-- ===== src/Dispatch/Reading/Answering.antt =====
-- Which tools `dispatch_read_tool` of src/dispatch.rs knows, and that they all answer.
use figmog.Prelude.{◌≡◌, ◌⊎◌, Bool, true, false, Option, none, some, List, [], ◌∷◌}
use figmog.Prelude.Text.{Str, lit, str_eq}
use figmog.Json.{Value}
use figmog.Api.{Result}
use figmog.Query.Readers.{Readers}
use figmog.Dispatch.Reading.{Answer}

-- The tools that only read
abbrev pub read_tools : List Str
read_tools =
    lit "figmog_status"
    ∷ lit "figmog_pages"
    ∷ lit "figmog_tree"
    ∷ lit "figmog_node"
    ∷ lit "figmog_subtree"
    ∷ lit "figmog_path"
    ∷ lit "figmog_components"
    ∷ lit "figmog_styles"
    ∷ lit "figmog_vars"
    ∷ lit "figmog_stats"
    ∷ lit "figmog_find"
    ∷ lit "figmog_search"
    ∷ lit "figmog_instances"
    ∷ lit "figmog_uses"
    ∷ lit "figmog_text"
    ∷ lit "figmog_where"
    ∷ lit "figmog_at"
    ∷ []

-- A tool that is known gets a value or an error, and one that is not gets nothing.
abbrev pub Serves : Bool → Option Answer → Type 0
Serves known o =
    ((known ≡ true) × ((result : Result Str Value) × (o ≡ some (some result))))
    ⊎ ((known ≡ false) × (o ≡ none))
