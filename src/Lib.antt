-- ===== src/Lib.antt =====
-- The Worlds part of Personal World: what may run, who approved it, and what is recorded of it.
--
-- The program keeps provider, request and action files (worlds/config_store.py), authenticates
-- callers (worlds/authn.py) and runs an action only through the dispatcher (worlds/dispatcher.py),
-- which stores authorizations, executions and the leases of its processes in SQLite (worlds/db.py).
-- An action goes request_authorization, approve (or Project Home, or the policy), execute; a crash
-- between the two updates of an execution leaves it to `recover`. Paths below are under
-- src/personal_world/.
--
-- - Prelude: Boolean tests, lists over the native ℕ, strings, integers. Value: JSON documents.
-- - Tx: an operation is a function from the state to a result and a state; `write_tx`
--   (worlds/db.py, Database.write_tx) puts the state back when the body raises.
-- - Table: SELECT, UPDATE, DELETE and their row counts over lists of rows.
-- - Config: the models of worlds/models.py that the dispatcher reads, in Checks the validators of
--   field paths and assertions, and the store's lookups with
--   `_version_of` (worlds/config_store.py). Config/Files: `save` and `delete` with their reference,
--   policy and etag checks; `StoreOps` is model_validate, the id patterns and the hash of the YAML
--   that is written. Reload is `_load_file` and `reload` over the files in the order of the loops;
--   `Disk` is yaml, model_validate and sha256.
-- - Runner: worlds/runner.py, `redact`, and `fetch` with `_fresh_cache`, `_remember`, `_send_once`,
--   `_classify` and `_check_assertions`. `Python` is utf-8, json, `==` and repr; `Kept` also notes
--   what was given to `send`; a `Flight` is what `_join` has answered, an argument of `fetch`. Laws goes
--   by the ways a fetch ends. An exception of a path or the RecursionError of json.loads is a result.
--   Flights is `_join` and `_leave` with a step relation over calls: each block under the guard is
--   a step, and a wait may end at any time, as its timeout allows.
-- - Authn: `Principal` with step-up and scopes, `SessionStore` and `AgentTokenStore`
--   (worlds/authn.py); `AuthOps` is sha256, `sorted(set())` and `split`, the random ids are arguments.
--   Requests is `authenticate` with `_check_csrf`; `RequestOps` is the methods of str and the hmac.
-- - Confinement: worlds/confinement.py. `Env` is what it calls (urlsplit, ipaddress, json, the
--   secrets, the lookup pool), where `elapsed` is the clock at the making of a note; `Net` is httpx,
--   which may answer by what was written, with the readings of the deadline. `Wire` is the history
--   of exchanges with `_SESSIONS`; the `Purpose` of an exchange is a label that the code has not.
--   Addresses is `classify_address`, Urls `build_url`, Guards `_prepare`, Credentials the headers,
--   Exchanges `perform`, `read_body`, `_write` and `_exchange`, Login `_authenticate`, Sending the
--   rest; the other modules are proofs. It stands for the dispatcher's parameter `send`.
-- - Dispatch: worlds/dispatcher.py. Rows is the tables and the parameters, Outcome is
--   `classify_outcome` and `_room_receipt`, Base the helpers, then Request, Approve, Send, Execute
--   and Recover, with the functions' names. System is a step relation over every process at once:
--   any operation of any process, with any configuration, clock and id, may come between two
--   transactions of an `execute`, and a thread may die before its send. Moves says how each
--   operation changes a row, Laws what single calls promise, Tests runs the code on examples.
-- - Cards: worlds/cards.py, the keys of fields, `_source_state_from_status`, `_field_value` and
--   `build_for` over the runner's `fetch`, where only a
--   MappingError of a path is caught; `ShowOps` is `==` and `format_value` of worlds/mapping.py,
--   and the last good values are read as the fetches of the call leave them.
-- - Mapping: worlds/mapping.py, `parse_path`, `resolve`, `count_of`, `extract`, durations and
--   relative times on whole seconds. A path is the list of its code points; `Digits` is `isdigit`
--   and `int`; the fuel of `read_steps` is the length of the path, and each round takes a character.
-- - Memory: worlds/memory_store.py, `add`, `update`, `delete`, `get`, `agent_answer` and
--   `record_event` of `MemoryStore` with their validation. A row's fields are a dict; an id is a
--   number; the find index and the history are lists in the order of insertion.
-- - Roles: roles.py, the tables, `can` and `role_for_groups`; it stands beside Worlds.
-- - Scheduler: scheduler.py, the reminders and `check_and_fire`, whose two readings of the clock for
--   a reminder are functions of its id; delivery and the journal are left out.
--
-- Conventions: a uuid is the number its hex digits spell; times are seconds in ℕ, and a difference
-- `now - t <= d` is written `now ≤ t + d`; the readings of the clock and the fresh ids are arguments.
-- JSON, sha256 and the string methods of Python are the record `Codec` (and `TextOps`), the network
-- is a function of what was sent before and of the attempt. `sqlite3.IntegrityError` is `integrity`.
-- The configuration is a snapshot per call. The only loops that are not over a finite list or table
-- are the one of `parse_path`, which has fuel, and the wait of `_join`, whose rounds are steps. `run`
-- in System takes the body of each transaction as one step, which is what BEGIN IMMEDIATE gives.
--
-- Not modelled: in worlds/config_store.py the writing of the files on disk (an OSError of it counts as
-- ConfigInvalid, and the validated copy that `save` takes is the object itself), in worlds/runner.py
-- the last-good files and the exceptions of `_remember` and of the redaction, in worlds/mapping.py the formats of floats and the reading of ISO timestamps, in
-- worlds/memory_store.py listing, search, export, backup and restore, and in worlds/authn.py the
-- owner's state and the key files; SQLite itself, the file handling and the migrations of
-- worlds/db.py, the meter, the preview and the boards of worlds/cards.py, the watchdog, the sockets
-- and the thread pool of worlds/confinement.py, the routes, the user interface, and the older application around Worlds (api.py, cli.py, chat and crew). The foreign
-- key of executions is not written out, since the row it names is read in the same transaction; the
-- check that `execute` is outside a transaction is not either, since no operation leaves one open.
pub mod Prelude
pub mod Value
pub mod Tx
pub mod Table
pub mod Cards
pub mod Config
pub mod Runner
pub mod Authn
pub mod Confinement
pub mod Dispatch
pub mod Mapping
pub mod Memory
pub mod Roles
pub mod Scheduler
