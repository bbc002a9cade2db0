-- ===== src/Store/Tests.antt =====
-- The properties of the store at a sync of a small file into an empty store in memory.
use figmog.Prelude.{◌≡◌, ◌≢◌, ◌≤◌, refl, Bool, true, false, some, [], ◌∷◌}
use figmog.Prelude.Lists.{length}
use figmog.Prelude.Text.{lit, str_beq}
use figmog.Prelude.Members.{Distinct, Distinct-of}
use figmog.Model.{RecId, Rec, id_beq}
use figmog.Model.Keys.{id_eq}
use figmog.Flatten.Walk.{walk}
use figmog.Flatten.Tests.{flattened, flattened-FileRow}
use figmog.Store.Sync.{sync, ids, meta_rec, collect_sweepable}
use figmog.Store.Sync.Result.{last_of, total, sync-total}
use figmog.Store.Sync.Mirror.{StoreMatches, IsFileKey, is_file_key, sync-mirror}
use figmog.Store.Sync.Again.{sync_again}
use figmog.Store.Memory.{memory, Log}

abbrev start : Log
start = []

-- A cached response of an older version.
abbrev cached : Log
cached =
    (
      RecId.proxy_cache (lit "h"),
      Rec.proxy_cache (record {
        key_hash = lit "h";
        tool = lit "get_code";
        args_canonical = lit "{}";
        file_version = lit "99";
        content = lit "1";
      }),
    )
    ∷ []

abbrev equal : Rec → Rec → Bool
equal a b = true

start-StoreMatches : StoreMatches memory start
start-StoreMatches k r h = cc

flattened-Distinct : Distinct (ids flattened.recs)
unfolding walk str_beq id_beq
flattened-Distinct = Distinct-of (ids flattened.recs) refl

sync-total_example :
    (total (sync memory equal cached (RecId.style (lit "S") ∷ []) flattened 7).1
      ≡ length flattened.recs)
    × ((sync memory equal cached (RecId.style (lit "S") ∷ []) flattened 7).1.removed
        ≤ length (RecId.style (lit "S") ∷ []))
sync-total_example = sync-total memory equal cached (RecId.style (lit "S") ∷ []) flattened 7

sync-mirror_example :
    ((j : RecId)
      → IsFileKey j
      → memory.get (sync memory equal start (collect_sweepable memory start) flattened 7).0 j
        ≡ last_of j flattened.recs)
    × (memory.get
          (sync memory equal start (collect_sweepable memory start) flattened 7).0
          RecId.meta
        ≡ some (meta_rec flattened 7))
    × ((j : RecId)
        → is_file_key j ≡ false
        → j ≢ RecId.meta
        → memory.get (sync memory equal start (collect_sweepable memory start) flattened 7).0 j
          ≡ memory.get start j)
sync-mirror_example =
    sync-mirror memory equal start flattened 7 start-StoreMatches flattened-FileRow

sync_again_example :
    (sync memory equal
      (sync memory equal start (collect_sweepable memory start) flattened 7).0
      (collect_sweepable memory
        (sync memory equal start (collect_sweepable memory start) flattened 7).0)
      flattened
      8).1
    ≡ record { added = 0; changed = 0; removed = 0; unchanged = length flattened.recs }
sync_again_example =
    sync_again memory equal (λ r. refl) start flattened 7 8 start-StoreMatches flattened-FileRow
      flattened-Distinct
