-- ===== src/Lib.antt =====
-- vibesurfer: a browser for agents, driven through a daemon that speaks a line-based wire format.
--
-- The crate `vs-protocol` (crates/vs-protocol/src) is the wire format: a client sends one request
-- line and gets back warnings, an envelope with a state token or an error, and a body, which is an
-- accessibility tree or a list of delta operations against the tree of an earlier token.
--
-- Files:
--   Prelude, Prelude/*: names of the libraries passed on, Boolean tests and lists.
--   Text, Text/*: what the sources use of Rust's `str`, over lists of Unicode scalar values, with
--     decimal numbers and lines. Sorted: `BTreeMap` and `BTreeSet` as strictly ordered lists.
--   Protocol/Error: error.rs. Protocol/Codes: codes.rs, the macro `code_enum!` as a record of an
--     enumeration's wire forms.
--   Protocol/Tokenize: tokenize.rs. The tokenizer is a function from the rest of the text to the
--     next token and the new rest; Tokenize/Laws and Tokenize/Safe have its lemmas.
--   Protocol/Request: request.rs. Request/Escape, Cut, Trim, Tokens and RoundTrip have the lemmas on
--     each of the stages of `Request::parse`.
--   Protocol/Tree: tree.rs. A `Vec<Node>` is a forest, one data type for the node and those after
--     it; the stack of `assemble` is a list whose head is the top. Tree/Nodes has the data, Tree/Iter
--     the iterator, Tree/Assemble, Tree/Line and Tree/RoundTrip the lemmas.
--   Protocol/Delta: delta/mod.rs in Delta/Ops (encoder) and Delta/Parse (parser), delta/apply.rs in
--     Delta/Apply, delta/diff.rs in Delta/Diff. Apply/Count counts the nodes of a tree under a test,
--     which Apply/Keeps and Apply/Distinct use to say what an operation does to the tree.
--     Delta/Places, Heads, Lines and RoundTrip go from a place to a line to the whole stream, and
--     Diff/Self is on equal trees.
--   Protocol/Envelope: envelope.rs, with the state token in Envelope/Token.
--   Table: `HashMap<String, V>` as an association list.
--   Daemon/Pending: daemon/pending.rs of crates/vs-daemon/src, the queue of inputs that a person
--     owes an agent. An operation under the lock is a function on the queue; a wait is given what
--     the other threads do each time before it wakes, and has passed its deadline after the last.
--     Pending/Queues, Answers, Supersede, Wait and Restore are on the operations of these names,
--     Pending/Reordered on the order of the map's entries.
--   Daemon/PageState: page_state.rs of crates/vs-daemon/src and the token of tokens.rs, whose hash
--     (BLAKE3, a crate of its own) is a parameter. PageState/Snapshot is on `apply_snapshot`.
--   Daemon/Error: error.rs of the daemon and of crates/vs-store/src, `EngineError` of engine.rs of
--     crates/vs-engine-webkit/src, and their wire form. Daemon/Fallible: `Result` over a state.
--   Daemon/Engine: the calls of the engine (engine.rs, inspector.rs). What the engine answers is a
--     parameter, a function of all the calls before and of this one.
--   Daemon/Store, Store/Sessions, Pages, Actions: types.rs and store/*.rs of crates/vs-store/src. A
--     table is a list of rows, and a statement is what its SQL does to them, with the primary keys
--     and foreign keys; which statements fail for another reason is a list in the state.
--   Daemon/World: the state of daemon/mod.rs and what reads and writes it. An operation is a
--     function from the state to its result and the new state, which an error does not undo.
--   Daemon/Redact, Captures: redact.rs, captures.rs. Daemon/Audit: daemon/audit.rs and
--     `audit_call`, which wraps each operation and logs it. The files below Redact, Captures and
--     Audit have the lemmas on each.
--   Daemon/Lifecycle: daemon/lifecycle.rs, with the pages in Lifecycle/Pages and the closing of
--     idle sessions and the takeover after a restart in Lifecycle/Sweep.
--   Daemon/PageOps: daemon/page_ops.rs, with `act` in PageOps/Act, `wait` and `find` in PageOps/Wait
--     and `status` in PageOps/Status. Act/Performed, Stale, Retry and Repeated follow `act` through
--     its branches; Wait/Rounds and Wait/Deadline are on the polling loop.
--   Daemon/Reaper: daemon/reaper.rs; Reaper/Plan compares the sweep with the definition of idle,
--     Reaper/Config is on the environment variables.
--   Daemon/PromptForm: `prompt_form_wait` of daemon/mod.rs, where queue, pages and log meet.
--   Daemon/Marks: `resolve_mark` of daemon/store_ops.rs and the lookup of store/marks.rs, over the
--     rows as an argument; Marks/Resolved is on what a mark points at.
--   Daemon/Invariant: what holds of sessions, pages and their trees in every state that the
--     operations reach, the takeover after a restart among them (Invariant/Listed, Restarts).
--     Invariant/Steps has the step relation; the files beside it show for each operation what it
--     keeps.
--   The files called Examples hold runs on concrete inputs.
--
-- Loops over the rest of a text or of the lines run on fuel: as much as the text has characters, or
-- as the input has lines, which is enough because each round takes at least one of them; `diff` has
-- one more than the height of the new tree. `collect` runs the iterator for a number of calls.
-- The polling loop of `wait` has one round more than its budget has quarters of a second, after
-- which the deadline has passed; `redact_string` has a round for each character.
--
-- A `u32` is a number with its bound checked where the source parses it, and `try_from` saturates.
-- Positions of `usize` are unbounded. `String` is a list of scalar values, and byte offsets are
-- not modelled, since every cut of the sources stands at an ASCII character.
--
-- An `Instant` is a number of nanoseconds, and the order of a table's entries stands for the order
-- in which a `HashMap` gives them; a new key comes last. Where a result might rest on that order, as
-- in Pending/Restore, the theorem is for every order (Pending/Reordered).
--
-- The operations of the daemon run one at a time, each from its call to its return; two operations
-- that take a lock in turns are not modelled. The clocks stand still while an operation runs,
-- except where it sleeps and in the polling loop of `wait`, whose snapshots take the time that the
-- engine says; the time of the engine's other calls and of the store's statements is not modelled. Identifiers come from a parameter and are not assumed to differ, and so
-- the hash of a tree is not assumed to have no collisions.
--
-- Not modelled: the engine's backends, which bind browser engines; the operations that only hand
-- their arguments to the engine or the store (inspection, cursor, typing, captures, downloads, the
-- writing of marks and annotations, encrypted blobs, skills); the recorder, the command line, and the server's sockets,
-- threads and files, which are I/O around these parts.
pub mod Prelude
pub mod Text
pub mod Sorted
pub mod Table
pub mod Protocol
pub mod Daemon
