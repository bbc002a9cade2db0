-- ===== src/Cache/Tests.antt =====
-- The unit tests of src/cache.rs, and the properties of the cache at one stored response.
use figmog.Prelude.{◌≡◌, refl, false, none, some, []}
use figmog.Prelude.Tests.{◌==◌, if◌then◌else◌}
use figmog.Prelude.Text.{Str, lit, str_beq, str_eq}
use figmog.Json.{str}
use figmog.Model.{RecId, Rec, ProxyCacheRec}
use figmog.Flatten.Tests.{serde}
use figmog.Store.Memory.{memory, Log}
use figmog.Cache.{cache_key, lookup, store}
use figmog.Cache.Laws.{lookup_sound, lookup-store_self}

abbrev tool : Str
tool = lit "get_code"

abbrev args : Str
args = lit "{}"

key_changes : (cache_key tool args == cache_key args tool) ≡ false
unfolding cache_key str_beq
key_changes = refl

abbrev cached : Log
cached = store serde memory [] tool args (lit "100") (str (lit "hi"))

hit : lookup serde memory cached tool args (lit "100") ≡ some (str (lit "hi"))
unfolding str_beq
hit = lookup-store_self serde memory [] tool args (lit "100") (str (lit "hi")) (lit "100") refl

lookup_sound_example :
    (r : ProxyCacheRec) × (memory.get cached (RecId.proxy_cache (cache_key tool args))
      ≡ some (Rec.proxy_cache r))
    × (r.tool ≡ tool)
    × (r.args_canonical ≡ args)
    × (r.file_version ≡ lit "100")
    × (serde.from_str r.content ≡ some (str (lit "hi")))
lookup_sound_example = lookup_sound serde memory cached tool args (lit "100") (str (lit "hi")) hit

lookup-store_self_example :
    lookup serde memory cached tool args (lit "101")
    ≡ (if lit "100" == lit "101" then some (str (lit "hi")) else none)
lookup-store_self_example =
    lookup-store_self serde memory [] tool args (lit "100") (str (lit "hi")) (lit "101") refl
