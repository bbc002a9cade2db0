-- ===== src/Pull/Tests.antt =====
-- The properties of a pull at a small response and an empty mirror.
use figmog.Prelude.{◌≡◌, refl, Bool, true, ◌||◌, none, some, []}
use figmog.Prelude.Text.{lit}
use figmog.Model.{Rec}
use figmog.Api.{ok}
use figmog.Store.Sync.Mirror.{StoreMatches}
use figmog.Store.Memory.{memory, Log}
use figmog.Store.Evict.{read_geometry}
use figmog.Flatten.Tests.{serde, response, flattened, flattens}
use figmog.Pull.{FigmaApi, PullOutcome, pull}
use figmog.Pull.Laws.{Mirrors, pull-Mirrors}

abbrev figma : FigmaApi
figma = record { file = λ geometry. ok response; variables_local = ok none }

abbrev equal : Rec → Rec → Bool
equal a b = true

start-StoreMatches : StoreMatches memory []
start-StoreMatches k r h = cc

pull-Mirrors_example :
    (st' : Log) × (out : PullOutcome) × (pull serde memory equal []
        (some (lit "k"))
        (some (lit "t"))
        true
        figma
        7
      ≡ ok (st', out))
    × Mirrors memory [] st' flattened 7 (true || read_geometry memory [])
    × (out.name ≡ flattened.file.name)
    × (out.version ≡ flattened.file.version)
pull-Mirrors_example =
    pull-Mirrors memory serde equal [] start-StoreMatches (lit "k") (lit "t") true figma 7 response
      flattened refl refl flattens
