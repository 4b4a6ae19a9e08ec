-- ===== src/Lib.antt =====
-- The digital employee connector: a local HTTP service between a platform and the Codex app-server.
--
-- The connector starts `codex app-server`, sends it calls over a pipe, reads its messages line by
-- line, and keeps what it hears as a stream of notifications for its clients and as domain events for
-- its host. The parts and the files that model them:
--
--   Session (src/app_server.rs, `ProcessSession`; src/app_server/server_requests.rs): one run of the
--     app-server. A session is a record of the pipe, the calls that wait, their results, and the
--     app-server's own requests. `check_alive`, `take_id`, `entered` and `write_call` are the steps of
--     `request` up to the wait for the channel, which other threads can come between, and `await` what
--     follows it. A write that fails leaves nothing, the beginning or all of its line in the pipe.
--     `dispatch_value` is one message of the reader thread and returns what it hands to
--     `EventStore::push`. Session/Reach has the step relation of a run, over the ids that calls have
--     taken (Session/Taken).
--   ServerRequests (src/app_server/server_requests.rs): the requests of the app-server, the replies,
--     and `validate_reply`.
--   EventStore (src/app_server/event_store.rs): the retained events, the subscribers, `push`,
--     `subscribe` and `recent`. EventStore/Delivery has the step relation of a subscriber's life.
--   Cursor (the same file; src/notification_stream.rs): the cursors of the stream and their text.
--   Events (src/events.rs): the domain events that notifications become, and their ids.
--   ThreadState (src/thread_state.rs): which threads are unread. Disk is the state file and each way in
--     which a save fails, Enrich what listing threads and marking them does.
--   Publisher (src/app_server/event_store.rs, `PublisherWorker`; src/app_server/host_receipt.rs): the
--     worker that posts a domain event until the host has accepted it. Receipt says which answers that
--     are, Retries when the worker ends.
--   Employee (src/employee.rs): the connector's one employee, its validation and its file. Workspaces
--     (src/employee_workspaces.rs) reads the account's workspaces page by page, Management
--     (src/employee_management.rs, src/project_preparation.rs) is the local management, and Invocation
--     (src/employee_invocation.rs) the test of what a remote caller asks.
--   Codex (src/codex_binary.rs; src/app_server.rs, `CodexClient`): Binary is the inspection of the
--     installed CLI, Runtime the client that keeps one app-server running: `ensure_session`, the status
--     and the shutdown. Codex/Ready says what a session that is handed out has gone through.
--   Invoke (src/invoke.rs): the remote calls. Params reads a body; Threads merges the projections of a
--     thread and Paging lists threads page by page; Host, Roots, Projects and Catalog are the listing of
--     projects; Handlers has a function for each path and Dispatch the paths. Unique, Indexed and Once
--     prove that a merged list has each id once, Rounds and Listed what a listing promises, Keyed and
--     Distinct that a project is listed once, Pages how an answer's cursor is read, Sent what starts a turn.
--   Server (src/main.rs, src/management.rs, src/invoke_dispatch.rs): Token is the management token and
--     Framing the reading of a request; Routes has `route`, `invoke_http` and `handle_connection`.
--   Checkout (src/project_checkout.rs, src/baijimu_cli.rs): the checkout of a platform project, made by the
--     platform CLI or found on the machine. Branch says when a branch fits, Reuse what `prepare` gives.
--   Process (src/process_runtime.rs, src/child_process.rs): where files are, the environment of a child and
--     the names of options; Health is the answer of a running connector, Token the file of the management
--     token. Names and Stored have what is proved of them.
--   Cli (src/cli.rs; `daemonize` of src/process_runtime.rs): Arguments parses, Settings has
--     the options of the server, and Commands what each command does. Options and Line prove what is read
--     back from arguments, Stop which process is stopped.
--   History (src/history.rs): the format of new threads (Format), and the history of a thread with no
--     message (Pages).
--   Files (src/json_compat.rs): files and the JSON text library, which is a parameter.
--   Http (src/main.rs): the error of every handler.
--
-- Base has the lists, tests and results that all parts share; Json, Map, Text and Serde model what the
-- source uses of serde_json, of maps, of texts and of derived decoding.
--
-- Conventions. Numbers are the native ones; a u64 counter wraps at 2^64 as in a release build, and the
-- theorems about runs assume that it does not get there. Each lock makes the operations under it one
-- step, and a poisoned lock is left out. Clocks, random ids, the outcome of a write or a rename, the
-- exit of a child, what the platform CLI prints, SHA-256, and printing and parsing of JSON text are
-- arguments. A loop is recursion on its list or text; the pages of workspaces and the retries of
-- Publisher take fuel, and Employee/Paging and Publisher/Retries give an amount that is enough.
--
-- Not modelled: sockets, threads and processes themselves; the loops that read the app-server's lines and
-- write the frames of the stream; the start of the server and its listener.
pub mod Base
pub mod Json
pub mod Map
pub mod Text
pub mod Http
pub mod Checkout
pub mod Process
pub mod Cli
pub mod Codex
pub mod Invoke
pub mod Server
pub mod Cursor
pub mod Serde
pub mod Files
pub mod ThreadState
pub mod Events
pub mod EventStore
pub mod ServerRequests
pub mod Session
pub mod Employee
pub mod History
pub mod Publisher
