-- ===== src/Serve/Routing.antt =====
-- `handle_tool_call` of src/serve.rs, and `SessionManager::list` of src/sessions.rs.
pub mod Laws
mod Tests
use figmog.Prelude.{
  ℕ, zero, Bool, true, false, not, ◌&&◌, Option, none, some, List, [], ◌∷◌, ◌++◌, map,
}
use figmog.Prelude.Tests.{◌==◌, if◌then◌else◌}
use figmog.Prelude.Text.{Str, lit, str_eq, decimal}
use figmog.Ident.{parse_file_ref}
use figmog.Json.{
  Value, null, bool, num, str, obj, end, Serde, get, as_str, array, object, remove, insert, ◌>>=◌,
}
use figmog.Model.{FileMeta}
use figmog.Api.{Result, ok, err, PullError}
use figmog.Flatten.Walk.{or_else}
use figmog.Store.Sync.{Churn}
use figmog.Pull.{PullOutcome}
use figmog.Sessions.{
  FileSession, SessionManager, World, session_of, set_session, do_pull, open_file, resolve,
  Resolved, ResolveError, effective_default_key, no_default_file,
}
use figmog.Proxy.{is_local_tool}
use figmog.Mcp.{ToolOutput, json, raw}
use figmog.Images.{ImageItem}
use figmog.Images.Blocks.{to_mcp_content}
use figmog.Dispatch.{require_str, require_str_array, arg_bool, arg_f64, infer_file_from_node_ref}
use figmog.Serve.{refresh_current}

-- What the closures of the session of a key answer, and the upstream. A pull takes the geometry flag;
-- `figmog_images` the ids, the format and the scale.
pub record Closures : Type 0 where
  pub stored : Str → Result Str (Option FileMeta)
  pub pulled : Bool → Str → Result PullError PullOutcome
  pub seen : Str → Option Str
  pub print : PullError → Str
  pub dispatch : Str → Str → Value → Result Str ToolOutput
  pub images : Str → List Str → Str → Option ℕ → Result Str (List ImageItem)
  pub proxy_cache : Str → Str → Value → Result Str (Value × Bool)
  pub upstream_call : Str → Value → Result Str Value

abbrev pub world : Closures → Bool → World
world c geometry = record {
  stored = c.stored;
  pulled = c.pulled geometry;
  seen = c.seen;
  print = c.print;
}

-- The settings of the process: whether an upstream is attached and what its status says, and the flags.
pub record Settings : Type 0 where
  pub attached : Bool
  pub upstream_status : Str
  pub no_watch : Bool
  pub track_current : Bool
  pub interval : ℕ

-- What a call does: the manager it leaves, the seconds from now that the next tick is set to if it is,
-- the key written to `.figmog/current` if one is, and the answer.
pub record Handled : Type 0 where
  pub manager : SessionManager
  pub next_tick : Option ℕ
  pub current : Option Str
  pub answer : Result Str ToolOutput

abbrev pub answered : SessionManager → Result Str ToolOutput → Handled
answered m r = record { manager = m; next_tick = none; current = none; answer = r }

abbrev pub failed : SessionManager → Option ℕ → Str → Handled
failed m wait message = record {
  manager = m;
  next_tick = wait;
  current = none;
  answer = err message;
}

-- `v["key"]`
abbrev pub index : Value → Str → Value
index v key = or_else (get v key) null

abbrev pub status_row : Result Str ToolOutput → Str → Value
status_row (ok (json v)) key = index v key
status_row _ key = null

abbrev pub same_key : Option Str → Str → Bool
same_key none key = false
same_key (some k) key = k == key

abbrev pub list_row : Closures → Option Str → FileSession → Value
list_row c default_key s =
    let status = c.dispatch s.key (lit "figmog_status") (obj end) in
    object (
      (lit "key", str s.key)
      ∷ (lit "name", status_row status (lit "name"))
      ∷ (lit "version", status_row status (lit "version"))
      ∷ (lit "nodes", status_row status (lit "nodes"))
      ∷ (lit "last_synced", status_row status (lit "synced_at_unix_ms"))
      ∷ (lit "default", bool (same_key default_key s.key))
      ∷ [])

unfoldable pub list : Closures → SessionManager → Value
unfolding effective_default_key
list c m = array (map (list_row c (effective_default_key m)) m.sessions)

abbrev pub churn_rows : Churn → List (Str × Value)
churn_rows churn =
    (lit "added", num (decimal churn.added))
    ∷ (lit "changed", num (decimal churn.changed))
    ∷ (lit "removed", num (decimal churn.removed))
    ∷ (lit "unchanged", num (decimal churn.unchanged))
    ∷ []

-- What `dispatch` of `figmog_status` gives for the node count.
abbrev pub nodes_of : ToolOutput → Value
nodes_of (json v) = index v (lit "nodes")
nodes_of (raw _) = null

abbrev pub opened_answer : PullOutcome → Str → ToolOutput → ToolOutput
opened_answer outcome key status = json (
    object (
      (lit "key", str key)
      ∷ (lit "name", str outcome.name)
      ∷ (lit "version", str outcome.version)
      ∷ (lit "nodes", nodes_of status)
      ∷ churn_rows outcome.churn))

module _ (c : Closures) (set : Settings) where
  abbrev pub after_open_pull : SessionManager → Str → Result (Str × ℕ) PullOutcome → Handled
  after_open_pull m key (err (message, wait)) = failed m (some wait) message
  after_open_pull m key (ok outcome) = elim (c.dispatch key (lit "figmog_status") (obj end)) [
    | err e ↦ failed m none e
    | ok status ↦ record {
      manager = m;
      next_tick = none;
      current = refresh_current m set.track_current key;
      answer = ok (opened_answer outcome key status);
    }
  ]

  abbrev pub pull_at :
      Bool → SessionManager → ℕ → FileSession → SessionManager × Result (Str × ℕ) PullOutcome
  pull_at geometry m pos s =
      let (s', answer) = do_pull c.print s (c.pulled geometry s.key) (c.seen s.key) set.interval in
      (record m { sessions = set_session pos s' m.sessions }, answer)

  abbrev pub open_at : Bool → SessionManager × Result Str ℕ → Handled
  open_at geometry (m, err e) = failed m none e
  open_at geometry (m, ok pos) = elim (session_of pos m.sessions) [
    | none ↦ failed m none no_default_file
    | some s ↦ let (m', answer) = pull_at geometry m pos s in after_open_pull m' s.key answer
  ]

  -- `figmog_open`
  unfoldable pub handle_open : SessionManager → Value → Handled
  unfolding require_str open_file do_pull set_session
  handle_open m args = elim (require_str args (lit "file")) [
    | err e ↦ failed m none e
    | ok file ↦ open_at (arg_bool args (lit "geometry")) (open_file c.stored m file)
  ]

  -- `figmog_images`; the session answers from its own cache, and does not pull.
  unfoldable pub handle_images : Serde → SessionManager → FileSession → Value → Handled
  unfolding require_str_array to_mcp_content
  handle_images sd m s args = elim (require_str_array args (lit "ids")) [
    | err e ↦ failed m none e
    | ok ids ↦
        elim (c.images s.key ids (or_else (get args (lit "format") >>= as_str) (lit "png"))
          (arg_f64 sd args (lit "scale"))) [
            | err e ↦ failed m none e
            | ok shown ↦ answered m (ok (raw (to_mcp_content sd shown)))
          ]
  ]

  abbrev pub synced : SessionManager → Str → PullOutcome → Handled
  synced m key outcome = record {
    manager = m;
    next_tick = none;
    current = refresh_current m set.track_current key;
    answer = ok (json (object (churn_rows outcome.churn)));
  }

  -- `figmog_sync`: a pull that `resolve` has done is not repeated.
  unfoldable pub handle_sync : SessionManager → ℕ → FileSession → Option PullOutcome → Handled
  unfolding do_pull set_session
  handle_sync m pos s (some outcome) = synced m s.key outcome
  handle_sync m pos s none = after_pull (pull_at false m pos s)
    where
      after_pull : SessionManager × Result (Str × ℕ) PullOutcome → Handled
      after_pull (m', err (message, wait)) = failed m' (some wait) message
      after_pull (m', ok outcome) = synced m' s.key outcome

  abbrev pub key_named : Str → Str
  key_named f = or_else (parse_file_ref f) f

  -- The note on an explicit file that is not the file of the URL.
  abbrev pub noted : Option Str → Option Str → Str → Str
  noted (some ef) (some uf) msg =
      if not (key_named ef == uf)
      then msg
        ++ (lit " (note: the id/under URL names file "
            ++ (uf
                ++ (lit ", but the explicit `file` argument "
                    ++ (key_named ef ++ lit " was used instead)"))))
      else msg
  noted _ _ msg = msg

  abbrev pub with_status : Str → ToolOutput → ToolOutput
  with_status name (json (obj fs)) =
      if name == lit "figmog_status"
      then json (obj (insert (lit "upstream") (str set.upstream_status) fs))
      else json (obj fs)
  with_status name result = result

  abbrev pub without_file : Value → Value
  without_file (obj fs) = obj (remove (lit "file") fs)
  without_file v = v

  -- A tool that reads the mirror of the session.
  abbrev pub handle_read : SessionManager → FileSession → Str → Value → Handled
  handle_read m s name args = elim (c.dispatch s.key name (without_file args)) [
    | ok result ↦ answered m (ok (with_status name result))
    | err msg ↦
        failed m none (noted (get args (lit "file") >>= as_str) (infer_file_from_node_ref args) msg)
  ]

  abbrev pub handle_at :
      Serde → SessionManager → ℕ → FileSession → Option PullOutcome → Str → Value → Handled
  handle_at sd m pos s just_pulled name args =
      if name == lit "figmog_images"
      then handle_images sd m s args
      else if name == lit "figmog_sync"
      then handle_sync m pos s just_pulled
      else handle_read m s name args

  abbrev pub handle_resolved : Serde → Resolved → Str → Value → Handled
  handle_resolved sd (m, err e) name args = failed m e.retry_after e.message
  handle_resolved sd (m, ok (pos, just_pulled)) name args = elim (session_of pos m.sessions) [
    | none ↦ failed m none no_default_file
    | some s ↦ handle_at sd m pos s just_pulled name args
  ]

  -- The file that a call means: the explicit one, or that of the URL.
  abbrev pub file_arg : Value → Option Str
  file_arg args = elim (get args (lit "file") >>= as_str) [
    | some file ↦ some file
    | none ↦ infer_file_from_node_ref args
  ]

  abbrev pub proxied : SessionManager → Result Str (Value × Bool) → Handled
  proxied m (err e) = failed m none e
  proxied m (ok (value, trigger_poll)) = record {
    manager = m;
    next_tick = if trigger_poll && not set.no_watch then some 0 else none;
    current = none;
    answer = ok (raw value);
  }

  -- The first session's cache is used, or none where there is no session.
  abbrev pub proxy_through : List FileSession → Str → Value → Result Str (Value × Bool)
  proxy_through [] name args = uncached (c.upstream_call name args)
    where
      uncached : Result Str Value → Result Str (Value × Bool)
      uncached (ok result) = ok (result, false)
      uncached (err e) = err e
  proxy_through (s ∷ _) name args = c.proxy_cache s.key name args

  unfoldable pub handle_proxied : SessionManager → Str → Value → Handled
  handle_proxied m name args =
      if set.attached
      then proxied m (proxy_through m.sessions name args)
      else failed m none (lit "upstream not attached: " ++ name)

  unfoldable pub handle_tool_call : Serde → SessionManager → Str → Value → Handled
  unfolding handle_open handle_images handle_sync handle_proxied list resolve is_local_tool
      infer_file_from_node_ref
  handle_tool_call sd m name args =
      if name == lit "figmog_files"
      then answered m (ok (json (list c m)))
      else if name == lit "figmog_open"
      then handle_open m args
      else if is_local_tool name
      then handle_resolved sd (resolve (world c false) set.interval m (file_arg args)) name args
      else handle_proxied m name args
