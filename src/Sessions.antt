-- ===== src/Sessions.antt =====
-- src/sessions.rs: the files that one process mirrors, and which of them a call means.
pub mod Opening
pub mod Resolving
mod Tests
use figmog.Prelude.{ℕ, zero, suc, Bool, true, false, Option, none, some, List, [], ◌∷◌, ◌++◌}
use figmog.Prelude.Tests.{◌==◌, if◌then◌else◌}
use figmog.Prelude.Lists.{length}
use figmog.Prelude.Text.{Str, lit, str_eq}
use figmog.Ident.{parse_file_ref}
use figmog.Model.{FileMeta}
use figmog.Api.{Result, ok, err, PullError}
use figmog.Watch.{Watcher, new, backoff_start, pull_failure_wait}
use figmog.Pull.{PullOutcome}

-- The closures of a session over its store are arguments of the operations that call them.
pub record FileSession : Type 0 where
  pub key : Str
  pub name : Str
  pub watcher : Watcher
  pub backoff : ℕ
  pub mirrored : Bool

abbrev pub last_modified_of : Option FileMeta → Option Str
last_modified_of none = none
last_modified_of (some m) = some m.last_modified

abbrev pub name_of : Str → Option FileMeta → Str
name_of key none = key
name_of key (some m) = m.name

abbrev pub is_some : Option FileMeta → Bool
is_some none = false
is_some (some _) = true

-- The session over a store whose meta row is given, without a pull.
abbrev pub session_at : Str → Option FileMeta → FileSession
session_at key stored = record {
  key = key;
  name = name_of key stored;
  watcher = new (last_modified_of stored);
  backoff = backoff_start;
  mirrored = is_some stored;
}

-- `seen` is what `(self.watermark)()` gives after the pull.
unfoldable pub note_pull_success : FileSession → PullOutcome → Option Str → FileSession
note_pull_success s outcome seen = record s {
  name = outcome.name;
  watcher = new seen;
  backoff = backoff_start;
  mirrored = true;
}

-- `pulled` is what `(session.pull)(geometry)` gives, and `print` the `Display` of its error.
unfoldable pub do_pull :
    (PullError → Str)
    → FileSession
    → Result PullError PullOutcome
    → Option Str
    → ℕ
    → FileSession × Result (Str × ℕ) PullOutcome
unfolding note_pull_success pull_failure_wait
do_pull print s (ok outcome) seen interval = (note_pull_success s outcome seen, ok outcome)
do_pull print s (err e) seen interval =
    let (wait, backoff) = pull_failure_wait e s.backoff interval in
    (record s { watcher = new seen; backoff = backoff }, err (print e, wait))

pub record SessionManager : Type 0 where
  pub sessions : List FileSession
  pub default_key : Option Str

-- `sessions.iter().position(|s| s.key == key)`
unfoldable pub position : Str → List FileSession → Option ℕ
position key [] = none
position key (s ∷ rest) =
    let later = position key rest in
    if s.key == key then some 0 else elim later [ none ↦ none | some i ↦ some (suc i) ]

unfoldable pub session_of : ℕ → List FileSession → Option FileSession
session_of i [] = none
session_of zero (s ∷ rest) = some s
session_of (suc i) (s ∷ rest) = session_of i rest

unfoldable pub set_session : ℕ → FileSession → List FileSession → List FileSession
set_session i s [] = []
set_session zero s (t ∷ rest) = s ∷ rest
set_session (suc i) s (t ∷ rest) = t ∷ set_session i s rest

abbrev pub push_opened :
    SessionManager → Str → Result Str (Option FileMeta) → SessionManager × Result Str ℕ
push_opened m key (err e) = (m, err e)
push_opened m key (ok row) =
    (record m { sessions = m.sessions ++ (session_at key row ∷ []) }, ok (length m.sessions))

-- The session is answered by its position. `stored` opens the store of a key, and reads its meta row.
unfoldable pub open_file :
    (Str → Result Str (Option FileMeta)) → SessionManager → Str → SessionManager × Result Str ℕ
unfolding position
open_file stored m file_ref = elim (parse_file_ref file_ref) [
  | none ↦ (m, err (lit "not a Figma file key or URL: " ++ file_ref))
  | some key ↦ elim (position key m.sessions) [
    | some pos ↦ (m, ok pos)
    | none ↦ push_opened m key (stored key)
  ]
]

abbrev only_key : List FileSession → Option Str
only_key (s ∷ []) = some s.key
only_key _ = none

unfoldable pub effective_default_key : SessionManager → Option Str
effective_default_key m = elim m.default_key [ some key ↦ some key | none ↦ only_key m.sessions ]

-- the message of `NO_DEFAULT_FILE_MSG`; the dash is U+2014
abbrev pub no_default_file : Str
no_default_file =
    lit "no file specified and no default mirrored file "
    ++ (0xe2
        ∷ 0x80
        ∷ 0x94
        ∷ lit
            " pass a `file` argument, mirror one with figmog_open, or see figmog_files for the current list")

pub record ResolveError : Type 0 where
  pub message : Str
  pub retry_after : Option ℕ

abbrev pub plain_error : Str → ResolveError
plain_error message = record { message = message; retry_after = none }

-- What a pull and its watermark give for the session of a key, and the store of a key.
pub record World : Type 0 where
  pub stored : Str → Result Str (Option FileMeta)
  pub pulled : Str → Result PullError PullOutcome
  pub seen : Str → Option Str
  pub print : PullError → Str

abbrev pub Resolved : Type 0
Resolved = SessionManager × Result ResolveError (ℕ × Option PullOutcome)

abbrev pub pull_answer :
    ℕ → Result (Str × ℕ) PullOutcome → Result ResolveError (ℕ × Option PullOutcome)
pull_answer pos (ok outcome) = ok (pos, some outcome)
pull_answer pos (err (message, wait)) = err (record { message = message; retry_after = some wait })

-- The branch of an explicit file, once its session is open. There is a session at the position.
unfoldable pub resolve_at : World → ℕ → SessionManager → ℕ → Option FileSession → Resolved
unfolding do_pull set_session
resolve_at w interval m pos none = (m, err (plain_error no_default_file))
resolve_at w interval m pos (some s) =
    if s.mirrored
    then (m, ok (pos, none))
    else (let (s', answer) = do_pull w.print s (w.pulled s.key) (w.seen s.key) interval in
        (record m { sessions = set_session pos s' m.sessions }, pull_answer pos answer))

abbrev pub resolve_opened : World → ℕ → SessionManager × Result Str ℕ → Resolved
resolve_opened w interval (m, err e) = (m, err (plain_error e))
resolve_opened w interval (m, ok pos) = resolve_at w interval m pos (session_of pos m.sessions)

abbrev position_of : Option Str → List FileSession → Option ℕ
position_of none sessions = none
position_of (some key) sessions = position key sessions

unfoldable pub resolve : World → ℕ → SessionManager → Option Str → Resolved
unfolding open_file resolve_at effective_default_key
resolve w interval m (some f) = resolve_opened w interval (open_file w.stored m f)
resolve w interval m none = elim (position_of (effective_default_key m) m.sessions) [
  | none ↦ (m, err (plain_error no_default_file))
  | some pos ↦ (m, ok (pos, none))
]
