-- ===== src/Lib.antt =====
-- figmog keeps a local mirror of a Figma file: it polls the file's metadata, fetches the file when it
-- has changed, flattens it into records, and synchronizes the records into a keyed store, from which
-- tools and a command line are answered.
--
-- Parts of the program, and the modules that model them:
-- - Ident (src/ident.rs): file keys, node ids, and the URLs that hold them. `from_utf8_lossy` follows
--   the standard library's replacement of ill-formed sequences.
-- - Api (src/api.rs): the errors and the answer of the meta endpoint; in Api.Requests the requests, and
--   what their answers become.
-- - Watch (src/watch.rs, and `pull_failure_wait` of src/cli/pull.rs): the watcher. An answer of the API
--   is an argument of `tick`, and `run` is a sequence of polls.
-- - Model (src/model.rs): the records of the mirror, and their keys, `RecId` for `Id`.
-- - Flatten.Scan, Flatten.Walk and Flatten.File (src/flatten.rs): the variable bindings inside a node,
--   the walk of the document, and the rows of a file.
-- - Store.Branches, Store.Sync and Store.Evict (src/store.rs): what feeds the tables, one sync of a
--   flattened file, and the rows of an older version with the geometry flag.
-- - Cache (src/cache.rs): the cache of proxied responses, in the same store.
-- - Query (src/query.rs): the answers read from the mirror, over the readers of `Query.Readers`. The
--   laws that these are asked are what the pipeline of src/store.rs feeds the tables with. The loops of
--   `scope_ids`, `path` and `depth_of` have as much fuel as there are nodes, and one more; each round
--   visits a node for the first time. The outline and the dump of a
--   subtree are on fuel too: `Query.Tree.Laws.Enough` is more fuel than the depth asked for, or, in an
--   index without a cycle, than the rank of the node. `to_uppercase` is a parameter
--   of `find`, and the ranking of the text index of `search`; the operations on doubles are one of `at`.
-- - Vars (src/vars.rs): the variables export, and in Vars.Inferred the variables that the nodes show.
-- - Pull (the pull closure of `open_session_at` in src/sessions.rs): flattening, the sync, the eviction
--   and the geometry flag, composed as there. The answers of the network are arguments.
-- - Sessions (src/sessions.rs): the sessions of a process, what a pull does to one, and `resolve`. The
--   closures of a session over its store are the fields of `World`.
-- - Proxy (src/proxy.rs): which tools are local and which calls are cached, the registry merged from the
--   local and the upstream tools, and a proxied call, with the upstream's answer as an argument.
--
-- - Mcp (src/mcp.rs): the dispatch of one JSON-RPC message. A handler is a step on a state of its own.
-- - Upstream (src/upstream.rs): the parse of an upstream's answers, and in Upstream.Client the handshake
--   and the calls. What is sent goes to a step function on the state of the other side.
-- - Serve (src/serve.rs): in Serve.Frames the reads of a frame, with the reader as the list of what
--   `fill_buf` gives; the round of the watcher, `watch_tick`, which answers the time to the next tick;
--   in Serve.Routing `handle_tool_call`, over what the closures of the sessions answer, with
--   `SessionManager::list` of src/sessions.rs.
-- - Images (src/images.rs): the items and their keys; in Images.Fetch the scan of the cache and the fetch
--   of what it lacks, in Images.Blocks the content of an answer, and Images.Base64. A `BTreeMap` that is
--   never iterated is a list of entries, the latest first. The answers of the network are arguments, and
--   the scale is given in thousandths.
-- - Dispatch (src/dispatch.rs): the arguments of a tool call, the file that a URL in them names, and in
--   Dispatch.Reading the tools that read the mirror, over the queries; `Libraries` has what they take
--   from outside. The fuel is that of the outline and the dump of a subtree.
-- - Cli (src/cli/socket.rs, src/cli/mod.rs): the client side of a call that is routed to a server.
--
-- The store. The `fold` crate, which keeps the records and their tables, is not part of the repository.
-- `Store.Stream.KeyedStream` is the interface that the program relies on: `upsert` and `remove` return
-- the old record, and the rows that the tables are fed from are the records that `get` finds. The
-- theorems hold for every implementation of it; `Store.Memory` is one, for the examples. A table of the
-- source is a `filter_map` of the branch function that feeds it over these rows.
--
-- serde_json. `Json.Value` is the type of its values, with the lookups that the source calls. Printing,
-- parsing, doubles and RFC 6901 pointers are fields of `Json.Serde`, a parameter of the definitions that
-- use them. Printing a value does not fail.
--
-- Text is a list of UTF-8 bytes. Numbers are unbounded naturals, and where the source wraps around
-- (the hash of the cache, u64) or saturates (the doubling of a backoff) the model does as well.
-- Every recursion is structural, or on the fuel named above.
--
-- Not modelled: HTTP clients, sockets, threads, timers, files and the clock, which are outside of the
-- functions above or arguments of them; the search index; command-line parsing and printing.
pub mod Prelude
pub mod Ident
pub mod Json
pub mod Model
pub mod Api
pub mod Watch
pub mod Flatten
pub mod Store
pub mod Cache
pub mod Query
pub mod Proxy
pub mod Vars
pub mod Pull
pub mod Sessions
pub mod Cli
pub mod Dispatch
pub mod Images
pub mod Mcp
pub mod Serve
pub mod Upstream
