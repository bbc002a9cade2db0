-- ===== src/Serve/Routing/Tests.antt =====
-- Tool calls of src/serve.rs at a manager with one file.
use figmog.Prelude.{◌≡◌, refl, true, false, none, [], ◌∷◌}
use figmog.Prelude.Text.{lit, str_beq}
use figmog.Json.{Value, str, object}
use figmog.Api.{ok, err}
use figmog.Flatten.Tests.{serde}
use figmog.Store.Sync.{no_churn}
use figmog.Sessions.{SessionManager, session_at, session_of}
use figmog.Ident.{parse_file_ref}
use figmog.Proxy.{is_local_tool}
use figmog.Mcp.{json, raw}
use figmog.Serve.Routing.{Closures, Settings, handle_tool_call}
use figmog.Serve.Routing.Laws.{ReadFrom, handle_tool_call-ReadFrom}

-- A mirror answers with the name of the tool, the upstream with its own text.
abbrev closures : Closures
closures = record {
  stored = λ key. ok none;
  pulled = λ geometry key. ok (record { churn = no_churn; name = lit "F"; version = lit "1" });
  seen = λ key. none;
  print = λ e. [];
  dispatch = λ key name args. ok (json (str name));
  images = λ key ids format scale. ok [];
  proxy_cache = λ key name args. ok (str (lit "proxied"), true);
  upstream_call = λ name args. err [];
}

abbrev settings : Settings
settings = record {
  attached = true;
  upstream_status = lit "connected";
  no_watch = false;
  track_current = false;
  interval = 60;
}

abbrev manager : SessionManager
manager = record {
  sessions = record (session_at (lit "abcdefghij") none) { mirrored = true } ∷ [];
  default_key = none;
}

abbrev args : Value
args = object ((lit "file", str (lit "abcdefghij")) ∷ (lit "id", str (lit "1:2")) ∷ [])

reads :
    (handle_tool_call closures settings serde manager (lit "figmog_node") args).answer
    ≡ ok (json (str (lit "figmog_node")))
unfolding handle_tool_call str_beq parse_file_ref session_of
reads = refl

handle_tool_call-ReadFrom_example :
    ReadFrom closures settings
      (lit "abcdefghij")
      (lit "figmog_node")
      args
      (json (str (lit "figmog_node")))
unfolding str_beq is_local_tool
handle_tool_call-ReadFrom_example =
    handle_tool_call-ReadFrom closures settings serde manager (lit "figmog_node") args
      (lit "abcdefghij") (json (str (lit "figmog_node"))) ((λ h. h), tt)
      (refl, refl, refl, refl, refl) refl reads

proxies :
    (handle_tool_call closures settings serde manager (lit "get_code") args).answer
    ≡ ok (raw (str (lit "proxied")))
unfolding handle_tool_call str_beq
proxies = refl
