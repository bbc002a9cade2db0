-- ===== src/Sessions/Tests.antt =====
-- The properties of the sessions: a file is opened, pulled, and answered again.
use figmog.Prelude.{ℕ, ◌≡◌, Option, none, some, [], ◌∷◌}
use figmog.Prelude.Text.{Str, lit}
use figmog.Prelude.Members.{Distinct}
use figmog.Ident.{parse_file_ref}
use figmog.Api.{ok}
use figmog.Store.Sync.{no_churn}
use figmog.Pull.{PullOutcome}
use figmog.Sessions.{SessionManager, session_at, open_file, World, resolve}
use figmog.Sessions.Opening.{keys, Opened, open_file_lem}
use figmog.Sessions.Resolving.{Answers, resolve_lem}

abbrev other_key : Str
other_key = lit "abcdefghij"

abbrev file_key : Str
file_key = lit "flAtUnMfzvA5daBSTFQK35"

abbrev manager : SessionManager
manager = record { sessions = session_at other_key none ∷ []; default_key = none }

abbrev outcome : PullOutcome
outcome = record { churn = no_churn; name = lit "F"; version = lit "100" }

abbrev world : World
world = record {
  stored = λ key. ok none;
  pulled = λ key. ok outcome;
  seen = λ key. some (lit "t1");
  print = λ e. [];
}

manager-Distinct : Distinct (keys manager.sessions)
manager-Distinct = ((λ h. h), tt)

open_file_lem_example :
    Opened manager (parse_file_ref file_key) (open_file world.stored manager file_key)
open_file_lem_example = open_file_lem world.stored manager file_key manager-Distinct

resolve_lem_example :
    Distinct (keys (resolve world 60 manager (some file_key)).0.sessions)
    × ((p : ℕ) (pulled : Option PullOutcome)
        → (resolve world 60 manager (some file_key)).1 ≡ ok (p, pulled)
        → (k : Str) × (parse_file_ref file_key ≡ some k)
          × Answers world k
              (open_file world.stored manager file_key).0
              (resolve world 60 manager (some file_key)).0
              p
              pulled)
resolve_lem_example = resolve_lem world 60 manager file_key manager-Distinct
