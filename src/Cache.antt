-- ===== src/Cache.antt =====
-- src/cache.rs: the version-keyed cache of proxied responses.
pub mod Key
pub mod Laws
mod Tests
use Prim.Native.Nat.{bit_xor, ◌/◌}
use figmog.Prelude.{
  ℕ, zero, suc, ◌+◌, ◌*◌, ◌%◌, ◌^◌, Bool, not, ◌||◌, Option, none, some, List, [], ◌∷◌, ◌++◌,
}
use figmog.Prelude.Tests.{ltb, ◌==◌, if◌then◌else◌}
use figmog.Prelude.Text.{Str, str_eq}
use figmog.Json.{Value, Serde, ◌>>=◌}
use figmog.Model.{RecId, Rec, ProxyCacheRec}
use figmog.Store.Stream.{KeyedStream, filter_map}
use figmog.Store.Branches.{proxy_cache_only}

abbrev pub offset_basis : ℕ
offset_basis = 0xcbf2_9ce4_8422_2325

abbrev pub prime : ℕ
prime = 0x0000_0100_0000_01b3

-- `hash ^= byte; hash = hash.wrapping_mul(PRIME)`
unfoldable pub fnv_step : ℕ → ℕ → ℕ
fnv_step hash byte = bit_xor hash byte * prime % 2 ^ 64

unfoldable pub fnv : ℕ → Str → ℕ
fnv hash [] = hash
fnv hash (byte ∷ bytes) = fnv (fnv_step hash byte) bytes

abbrev pub hex_lower : ℕ → ℕ
hex_lower n = if ltb n 10 then 48 + n else 87 + n

-- The last `n` hexadecimal digits of a number.
unfoldable pub hex_pad : ℕ → ℕ → Str → Str
hex_pad zero n acc = acc
hex_pad (suc k) n acc = hex_pad k (n / 16) (hex_lower (n % 16) ∷ acc)

-- The bytes that are hashed: the tool, NUL, and the arguments.
abbrev pub key_bytes : Str → Str → Str
key_bytes tool args = tool ++ (0 ∷ args)

-- `format!("{hash:016x}")` of a hash below 2 ^ 64
unfoldable pub cache_key : Str → Str → Str
unfolding fnv fnv_step hex_pad
cache_key tool args_canonical = hex_pad 16 (fnv offset_basis (key_bytes tool args_canonical)) []

-- `cache.get(&key)` on the table
unfoldable pub table_get : {A : Type 0} → Str → List (Str × A) → Option A
table_get k [] = none
table_get k ((j, a) ∷ rows) = if j == k then some a else table_get k rows

-- The two tests on a row, and the parse of its content.
unfoldable pub serve_row : Serde → Str → Str → Str → ProxyCacheRec → Option Value
serve_row sd tool args current row =
    if not (row.tool == tool) || not (row.args_canonical == args)
    then none
    else if not (row.file_version == current)
    then none
    else sd.from_str row.content

module _ (sd : Serde) (fold : KeyedStream) where
  open fold use {State, upsert, rows}

  unfoldable pub lookup : State → Str → Str → Str → Option Value
  unfolding table_get serve_row filter_map
  lookup st tool args_canonical current =
      table_get (cache_key tool args_canonical) (filter_map proxy_cache_only (rows st))
      >>= serve_row sd tool args_canonical current

  abbrev pub row_of : Str → Str → Str → Value → ProxyCacheRec
  row_of tool args_canonical file_version content = record {
    key_hash = cache_key tool args_canonical;
    tool = tool;
    args_canonical = args_canonical;
    file_version = file_version;
    content = sd.to_string content;
  }

  -- Printing a `Value` does not fail, so the error of the source does not occur.
  unfoldable pub store : State → Str → Str → Str → Value → State
  store st tool args_canonical file_version content =
      (upsert st (RecId.proxy_cache (cache_key tool args_canonical))
        (Rec.proxy_cache (row_of tool args_canonical file_version content))).1
