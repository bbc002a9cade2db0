-- ===== src/Query/Bindings/Projection.antt =====
-- What a projection keeps.
use figmog.Prelude.{◌≡◌, inl, inr, Bool, none, List, arith}
use figmog.Prelude.Tests.{◌==◌, if◌then◌else◌, Bool-cases}
use figmog.Prelude.Text.{Str, str_eq, str_beq_iff}
use figmog.Json.{obj, Fields, end, field, find, get}
use figmog.Query.Bindings.{retain, is_kept, project_raw_fields}

find-retain :
    (keep : Str → Bool) (k : Str) (fs : Fields)
    → find k (retain keep fs) ≡ (if keep k then find k fs else none)
unfolding retain
find-retain keep k end = ground arith
find-retain keep k (field j v fs) = elim (Bool-cases (j == k)) [
  | inl e ↦ rw ((str_beq_iff j k).0 e) (ground (arith, find-retain keep k fs, str_beq_iff k k))
  | inr e ↦ ground (arith, find-retain keep k fs, e)
]

-- A projected object has the fields that were asked for, and its id, name and type, as they were, and
-- no others.
pub project_raw_fields_lem :
    (fs : Fields) (fields : List Str) (k : Str)
    → get (project_raw_fields (obj fs) fields) k
      ≡ (if is_kept fields k then get (obj fs) k else none)
unfolding project_raw_fields
project_raw_fields_lem fs fields k = find-retain (is_kept fields) k fs
