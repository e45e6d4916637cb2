-- ===== src/Lib.antt =====
-- Verification of Syllva's local Core: the sessions of its UI, the Human-Proof gate with the part
-- of the state database that it writes, locators, the capabilities of the retrieval tools, the
-- OAuth grants of its remote MCP server, and the session of the settings window. Paths below are
-- from the repository's root.
--
-- The Shell (a desktop window) asks the Core for a bootstrap token, the web page exchanges it for a
-- session, a session begins a gate request, the Shell shows the dialog and signs the request, and
-- the confirmed request becomes a verified material in the database. A remote MCP client registers,
-- sends its owner to a login at Google, and exchanges the code of the callback for tokens. The
-- parts and their files:
--
-- - Prelude: helpers that all share. Texts are lists of code points (`Texts`), a Python dict with
--   text keys is an association list in insertion order (`Dict`), decimal numbers (`Decimal`).
-- - Platform: what is taken from `hashlib`, `hmac` and `unicodedata`, as a parameter.
-- - Sessions: src/syllva/ui/sessions.py. One function for each method of `SessionStore`:
--   `issue_bootstrap`, `exchange`, `find` (`lookup`), `alive`, `end_window`, `logout`, `prune`, `counts`.
--   `Sessions.Invariant` has the invariant (`Defs`, kept by `Exchange` and `Lookup`) and the calls as a
--   step relation, `Sessions.Tokens` the life of a token, `Sessions.Bootstraps` which tokens are accepted,
--   `Sessions.Windows` the sessions of a window.
-- - Gate: src/syllva/gate/service.py (`GateService`), state in `Gate`, methods in `Gate.Service`:
--   `begin`, `view`, `deny`, `confirm`. `Gate.Canonical` is gate/canonical.py, `Gate.Summaries` is
--   gate/summaries.py, `Gate.Mac` is gate/mac.py. `Gate.Expiry`, `Gate.Invariant`, `Gate.Steps`,
--   and `Gate.Approval` hold the proofs.
-- - State: the tables that the gate reads and writes and `material_target` of gate/fingerprints.py;
--   `State.Commit` is `commit_gate` of src/syllva/state/v2/writer.py with the schema's triggers;
--   `State.Effects` and `State.Audit` hold the proofs. `State.Policy` is src/syllva/state/v2/ownership.py,
--   and `State.Policy.Access` the checks of `_authorize`, `insert`, `update` and `delete` in the writer;
--   `State.Policy.Guards` compares them with the triggers of state/v2/migrations/001_v2_initial.sql.
--   `State.Intake` is the writer's `transition_intake_state`.
-- - Domain: `Domain.Ids` is the entity-id grammar of src/syllva/domain/ids.py. `Domain.Locators` is the
--   locator part of src/syllva/domain/models.py, with its proofs in `Order`, `RoundTrip`, `Canonical`.
-- - Ephemeral: the records of src/syllva/ephemeral/models.py and the store of
--   src/syllva/ephemeral/memory.py. `Ephemeral.Contexts` has `create_context_capability`,
--   `get_context_capability` and `authorize_locator`; `Ephemeral.Resolutions` has `create_resolution`,
--   `get_resolution`, `consume_resolution_choice` and `purge_expired`, with its proofs in `SingleUse`,
--   `Scoping` and `Reserved`.
-- - Core: src/syllva/core/stdio.py. `Core` has the message fields and `parse_hello`, `Core.Framing` is
--   `Channel.read` with the reader thread, and `Core.Loop` is `_loop` with `_gate_message`, over the
--   session store and the gate. Proofs: `Core.Handshake`, `Core.Framing.Reading`, `Core.Liveness`;
--   `Core.Moves` lists the calls that a turn can make, and `Core.Composition` adds the calls of the HTTP
--   server and joins the invariants of the parts.
-- - OAuth: src/syllva/mcp/transports/oauth.py. `OAuth` has the tables of `OAuthStore`; its methods are in
--   `OAuth.Codes`, `OAuth.Tokens` and `OAuth.Clients`. `OAuth.Steps` is their step relation,
--   `OAuth.Outcomes` what the two exchanges write and `OAuth.Effects` the effects of every method, from
--   which `OAuth.SingleUse`, `OAuth.Families`, `OAuth.Caps` and `OAuth.RoundTrip` prove their theorems.
--   `OAuth.Broker` is `GoogleOAuthBrokerProvider` over that store, with `Broker.Google` for the
--   verification of the owner and
--   `Broker.Callback` for the callback and the exchanges, its calls in `Broker.Steps`, and its proofs in
--   `Broker.Login`, `Broker.Owner` and `Broker.ReadOnly`.
-- - Settings: `SessionSecurity` of src/syllva/settings/security.py, the session of the settings window,
--   with its proofs in `Settings.Epochs`.
--
-- Modelling choices. A method that runs under its object's lock, or in one transaction, is one step
-- from state to state; an error keeps the state that the code keeps. `handle_google_callback` is
-- neither: it awaits between its parts. As a function it is the callback that nothing comes between;
-- the calls of `Broker.Steps` also have its parts one by one, with any other calls between them. The
-- monotonic clock is in milliseconds (in whole seconds in `Settings`), and each reading is an argument
-- of its own: `exchange` reads it three times, `issue_bootstrap` twice.
-- Random tokens, liveness of sessions, an open transaction, the database's faults and the time
-- stamp are arguments. The two dictionary keys `sha256(text)` are a function `digest`, of which
-- nothing is assumed. A table of the state database is a list of rows, one of the OAuth database a
-- dictionary; the statements are read as SQLite documents them. `Fault` says what may go wrong
-- around the transaction of `commit_gate`: an exception in it is rolled back, one of COMMIT leaves
-- it open and the file as it was, and an interrupt behind COMMIT finds it written. The OAuth
-- store's connection commits where its block returns and rolls back where an exception leaves it.
-- Fuel occurs twice: in `decimal`, where a number's own value bounds its digits, and in `reader`,
-- where the length of the input bounds the reads. The reader's `json.loads` is a function `loads`,
-- which returns a value or raises `ValueError` or `RecursionError`; the loop's inbox is the list
-- of its results. The times of the OAuth store are whole seconds, where the code has floats. What
-- the broker asks of Google, of the JWT library and of the JSON reader are the fields of `Google`.
-- The ids that `create_resolution` draws in its loop are a list; a list that is used up answers
-- nothing.
--
-- Not modelled: log events, the statements behind the checks of `insert`, `update` and `delete`,
-- the coercions of mappings to capability entries, the actions that the gate has not wired, the
-- string form of a JSON float, `to_bytes` beyond 2 ** 32 bytes, the files, URLs and policy
-- fingerprint of the OAuth module, and the start of the Core's servers. The other packages of
-- src/syllva are outside the development.
pub mod Prelude
pub mod Sessions
pub mod Platform
pub mod Gate
pub mod Domain
pub mod Ephemeral
pub mod OAuth
pub mod Core
pub mod Settings
pub mod State
