-- ===== src/Serve/Routing/Laws.antt =====
-- Which file a tool call of src/serve.rs is answered from.
use figmog.Prelude.{ℕ, ◌≡◌, refl, sym, ap, ◌∙◌, true, false, Option, some}
use figmog.Prelude.Tests.{◌==◌}
use figmog.Prelude.Text.{Str, lit, str_eq}
use figmog.Prelude.Members.{Distinct}
use figmog.Ident.{parse_file_ref}
use figmog.Json.{Value, Serde, get, as_str, ◌>>=◌}
use figmog.Dispatch.{infer_file_from_node_ref}
use figmog.Api.{Result, ok, err}
use figmog.Pull.{PullOutcome}
use figmog.Sessions.{FileSession, SessionManager, session_of, resolve, Resolved}
use figmog.Sessions.Opening.{keys}
use figmog.Sessions.Resolving.{resolve_lem}
use figmog.Proxy.{is_local_tool}
use figmog.Mcp.{ToolOutput}
use figmog.Serve.Routing.{
  Closures, Settings, Handled, world, handle_tool_call, handle_resolved, handle_at, handle_read,
  file_arg, with_status, without_file, noted,
}

module _ (c : Closures) (set : Settings) where
  -- The answer is what the mirror of the file says to the call without its `file` argument.
  abbrev pub ReadFrom : Str → Str → Value → ToolOutput → Type 0
  ReadFrom f name args out =
      (key : Str) × (found : ToolOutput) × (parse_file_ref f ≡ some key)
      × (c.dispatch key name (without_file c set args) ≡ ok found)
      × (out ≡ with_status c set name found)

  handle_read-dispatch :
      (m : SessionManager) (s : FileSession) (name : Str) (args : Value) (out : ToolOutput)
      → (handle_read c set m s name args).answer ≡ ok out
      → (found : ToolOutput) × (c.dispatch s.key name (without_file c set args) ≡ ok found)
        × (out ≡ with_status c set name found)
  handle_read-dispatch m s name args out h =
      by_answer (c.dispatch s.key name (without_file c set args)) refl
    where
      by_answer :
          (r : Result Str ToolOutput)
          → c.dispatch s.key name (without_file c set args) ≡ r
          → (found : ToolOutput) × (c.dispatch s.key name (without_file c set args) ≡ ok found)
            × (out ≡ with_status c set name found)
      by_answer (ok found) e =
          let p : ok (with_status c set name found) ≡ ok out = rw (e, handle_read) at h in
          (found, e, cc)
      by_answer (err msg) e =
          let note =
            noted c set (get args (lit "file") >>= as_str) (infer_file_from_node_ref args) msg in
          let bad : err note ≡ ok out = rw (e, handle_read) at h in cc

  -- A tool that only reads.
  abbrev pub Reads : Str → Type 0
  Reads name =
      ((name == lit "figmog_files") ≡ false)
      × ((name == lit "figmog_open") ≡ false)
      × ((name == lit "figmog_images") ≡ false)
      × ((name == lit "figmog_sync") ≡ false)
      × (is_local_tool name ≡ true)

  handle_at_read :
      (sd : Serde) (m : SessionManager) (pos : ℕ) (s : FileSession) (pulled : Option PullOutcome)
      (name : Str) (args : Value)
      → Reads name
      → handle_at c set sd m pos s pulled name args ≡ handle_read c set m s name args
  handle_at_read sd m pos s pulled name args (a, b, i, y, l) = rw (i, y) refl

  handle_tool_call_local :
      (sd : Serde) (m : SessionManager) (name : Str) (args : Value)
      → Reads name
      → handle_tool_call c set sd m name args
        ≡ handle_resolved c set sd
            (resolve (world c false) set.interval m (file_arg c set args))
            name
            args
  unfolding handle_tool_call
  handle_tool_call_local sd m name args (a, b, i, y, l) = rw (handle_tool_call, a, b, l) refl

  -- A session of the file's key stands at the position that is answered.
  Lands : Str → Resolved → Type 0
  Lands f (m, r) =
      (pos : ℕ) (pulled : Option PullOutcome)
      → r ≡ ok (pos, pulled)
      → (key : Str) × (s : FileSession) × (parse_file_ref f ≡ some key)
        × (session_of pos m.sessions ≡ some s)
        × (s.key ≡ key)

  handle_resolved_read :
      (sd : Serde) (f : Str) (r : Resolved) (name : Str) (args : Value) (out : ToolOutput)
      → Lands f r
      → Reads name
      → (handle_resolved c set sd r name args).answer ≡ ok out
      → ReadFrom f name args out
  unfolding Lands
  handle_resolved_read sd f (m, err e) name args out l n h = cc
  handle_resolved_read sd f (m, ok (pos, pulled)) name args out l n h =
      let (key, s, p, at, named) = l pos pulled refl in
      let same : handle_resolved c set sd (m, ok (pos, pulled)) name args
          ≡ handle_read c set m s name args =
        rw (at, handle_resolved) (handle_at_read sd m pos s pulled name args n) in
      let read : (handle_read c set m s name args).answer ≡ ok out =
        ap (λ (z : Handled). z.answer) (sym same) ∙ h in
      let (found, e, o) = handle_read-dispatch m s name args out read in
      (key, found, p, rw (← named) e, o)

  resolve-Lands :
      (interval : ℕ) (m : SessionManager) (f : Str)
      → Distinct (keys m.sessions)
      → Lands f (resolve (world c false) interval m (some f))
  unfolding Lands
  resolve-Lands interval m f d pos pulled e =
      let (key, p, (s, at, named, mirrored, how)) =
        (resolve_lem (world c false) interval m f d).1 pos pulled e in
      (key, s, p, at, named)

  -- Where no two sessions have the same key, a tool that only reads and that is given a file, by the
  -- argument or by a URL, answers, if at all, what the mirror of that file says to the call without
  -- its `file` argument.
  pub handle_tool_call-ReadFrom :
      (sd : Serde) (m : SessionManager) (name : Str) (args : Value) (f : Str) (out : ToolOutput)
      → Distinct (keys m.sessions)
      → Reads name
      → file_arg c set args ≡ some f
      → (handle_tool_call c set sd m name args).answer ≡ ok out
      → ReadFrom f name args out
  handle_tool_call-ReadFrom sd m name args f out d n e h =
      let resolved = resolve (world c false) set.interval m (some f) in
      let same : handle_tool_call c set sd m name args
          ≡ handle_resolved c set sd resolved name args =
        handle_tool_call_local sd m name args n
        ∙ ap (λ z. handle_resolved c set sd (resolve (world c false) set.interval m z) name args)
            e in
      handle_resolved_read sd f resolved name args out (resolve-Lands set.interval m f d) n
        (ap (λ (z : Handled). z.answer) (sym same) ∙ h)
