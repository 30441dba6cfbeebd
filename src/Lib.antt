-- ===== src/Lib.antt =====
-- A verification library for Ibis Assistant: executable models of the core logic of its Rust
-- crates, and the theorems that make that logic correct.
--
-- The program and its parts. Ibis Assistant serves project memory to coding agents: it keeps
-- claims (decisions, rules and fixes) as files in a repository and as rows of a database, answers
-- what holds at a git commit, and generates text through local and cloud models. The parts that
-- are modelled, with paths from the repository's root:
--
--   Ai       crates/ibis-ai/src: error.rs, traits.rs and types.rs (Ai), router.rs (Ai.Router),
--            cloud_pool.rs (Ai.Pool), fallback.rs (Ai.Chain). A provider is a record of two actions
--            on a world, `is_functional` and `generate_content`; the router, the pool and the chain
--            are built from providers, as in the code.
--   Ai.Batch  crates/ibis-ai/src/batch_manager.rs: the sweeps that cut commits into chunks and
--            embed chunks.
--   Ai.Gemini  crates/ibis-ai/src/gemini.rs: the worker of a key, its limits (Ai.Gemini), its
--            attempts and models (Ai.Gemini.Requests); `estimate_tokens` of types.rs.
--   Git      crates/ibis-git/src/ancestry.rs and error.rs, the git source of anchor.rs (Git), and
--            the loop of `as_of_claims` in crates/ibis-search/src/memory/asof.rs (Git.AsOf). The
--            ancestor cache is a map that is passed along; `ancestor_set_for` is its only client
--            besides `invalidate`.
--   Git.Credentials  crates/ibis-git/src/resolve.rs, store.rs and types.rs: the credentials of git
--            remotes, with the key characters of Records and the URL parts of Access.Origin.
--   Git.Notes  crates/ibis-git/src/notes.rs: the notes that point from commits to claims; the sorting
--            of texts is Text.Order.
--   Claims   crates/ibis-core/src/claims.rs: the claim file, its rules (Claims), its scalars
--            (Claims.Scalar), `render` (Claims.Render) and `parse` (Claims.Parse).
--   Records  crates/ibis-db/src/ids.rs: record ids of the database and the escaping of literals.
--   Access   crates/ibis-core/src/auth.rs and crates/ibis-httpserver/src/auth.rs (Access.Peer,
--            Access.Actor), crates/ibis-httpserver/src/origin.rs (Access.Origin).
--   Queue    crates/ibis-ingest-dynamic/src/queue.rs: the ingestion queues of the projects, their
--            workers and the callbacks, as a step relation.
--   Migrate  crates/ibis-db/src/migrate.rs: the migration loop and the version record.
--   Logs     crates/ibis-ingest-logs/src/tailer.rs: the polls of a log file and the batches of lines
--            that the analyzer gets.
--   Slice    crates/ibis-search/src/memory: ancestry.rs (Slice), claim_tree.rs (Slice.Tree), asof.rs
--            (Slice.AtRef), kdiff.rs (Slice.Diff). They call `ancestor_set_for` of Git, the record
--            ids of Records and the claim files of Claims, and their loop over the rows is Git.AsOf.
--   Governance  crates/ibis-search/src/memory/mod.rs and share.rs: who may archive, erase, update or
--            share a memory, with the actors of Access.
--   Settings  crates/ibis-settings/src: the settings server of the plugin, ephemeral.rs
--            (Settings.Ephemeral), and the decoding of queries, http.rs (Settings.Query).
--   Reasoning  crates/ibis-core/src/reasoning.rs: the defaults of the reasoning configuration and
--            the clouds that have credentials, over the records of crates/ibis-core/src/config.rs.
--
-- Text, Effect and Prelude hold what these share: `str` as a list of code points with the
-- operations of the standard library that the code calls, `HashMap<String, _>` as an association
-- list, `Result`, and actions on a world. A definition has the name that the code gives to the
-- function; a loop or a branch that the code writes inline has a name of its own.
--
-- How state and errors are modelled. A handler that reads and changes a world is a function from a
-- world to a result and a world, so that the order of its calls is the order of the code. Error
-- messages are constructors with the values that the message shows. A claim file is the text that
-- its bytes decode to; a timestamp, a generated candidate, the contents of a request and floating
-- point parameters are values of types that the model takes from outside. Durations are numbers of
-- nanoseconds in the router and of seconds in the cache.
--
-- What stands for code outside the repository, each a parameter with the behaviour that is relied
-- on as a hypothesis where a theorem needs it: Unicode's `to_lowercase`, tokio's timeout and
-- bounded channel, chrono's RFC 3339 texts, the git subprocess, the IPv6 half of the address
-- parser, the header map of the http crate, the database driver's rendering of values and its
-- statements, the bytes that one read of a file gives, a model's HTTP client and what is read of
-- its JSON, `f64`, clocks, sleeps and the shutdown signal. What syncing a workspace and ingesting it
-- give is an input of the queue's steps, and random tokens and the listener's address are inputs of
-- the settings server's. A timer of that server may go off at any time. The iteration over a hash
-- map of claim files, which has no order in the code, is that of a list.
--
-- Bounds and fuel. Numbers are natural numbers without a bound; an `i64` is read with its bounds
-- written out and printed from its digits. The only fuel is that of `decimal`, which prints `n`
-- with fuel `n + 1`: each round divides by ten; and that of `pause`, the rounds that a worker waits
-- for another day, for which there is a theorem that enough rounds end the wait. A queue holds at most 100 jobs, the code's bound.
--
-- Not modelled: the providers' HTTP clients besides the Gemini worker's, its batch API and its
-- channel, the local model runner, the server and its tools, ingestion of code and tickets and the
-- analysis of logs, the database layer besides ids and migrations, the git subprocess, the editor
-- extensions, the wizard and the command line, which are I/O; search ranking, adding and listing
-- memories, the loading of configuration and the rest of the git crate, which no modelled part calls;
-- log output and the wording of errors.
pub mod Prelude
pub mod Text
pub mod Effect
pub mod Ai
pub mod Git
pub mod Claims
pub mod Records
pub mod Access
pub mod Queue
pub mod Migrate
pub mod Reasoning
pub mod Logs
pub mod Slice
pub mod Governance
pub mod Settings
