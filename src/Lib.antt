-- ===== src/Lib.antt =====
-- The control plane of Cadet, and what is proved of it.
--
-- Cadet runs agents. Its state lives in a SpacetimeDB module, spacetimedb/src/lib.rs: tables for
-- agents, jobs, schedules, threads, workflow runs with their steps and approvals, browser tasks and
-- memory, and reducers, which are the only code that writes them. Runners subscribe to the tables,
-- claim a schedule's due run, a ready step or a queued browser task by a reducer, do the work, and
-- report by another reducer. rust/starbridge-core/src/lib.rs has the enumerations whose texts the
-- columns hold.
--
-- Which file models which code:
--   Shared        no code: the outcome of a reducer (Result), Boolean tests, and the i64 numbers
--                 (Shared/Int), whose sum wraps as in a release build
--   Store         the table interface of the SpacetimeDB SDK, a parameter (an instance argument)
--                 Store/Tables has the lemmas on writes, Store/Assoc an implementation
--   Float         f32 and f64, a parameter (an interface with the laws of IEEE 754 that are used);
--                 Float/Hundredths implements it for concrete runs
--   Text          validate_identifier, validate_text, normalize_json_blob and str::trim; Text/Choice
--                 the checks for a text of a fixed list, Text/Identifiers the identifiers written out
--   Vocab         an enumeration of rust/starbridge-core/src/lib.rs per file, with as_str and
--                 from_str; Vocab/Enum has the macro string_enum! and the interface that all fill
--   Validate      the validate_* functions that parse a word of an enumeration
--   Rows, Db      the rows of the tables, by area, and the database
--   Reducers      the reducers, a function of the same name for each, in the order of the checks
--                 and writes of the source; a reducer takes the context, its arguments and the
--                 database, and returns a Result of the database
--   System        the calls of the host: Call has a constructor per reducer, run a list of calls
--   Sound         the invariant of the tables, and that each reducer keeps it
--   Claims        claim_workflow_step and claim_browser_task
--   Leases        register_schedule and claim_schedule_run
--   Progress      the steps of a run, their ends, its approvals, browser tasks and statuses, and
--                 ingest_message
--   Operators     delete_expired_challenges
--   Chat          the state of chat bots, against a map
--   Prompt        rust/starbridge-core/src/context_engine.rs: Floats (what parses as an f64), Decimal
--                 (to_string), Toon (encode_object, encode_nested, encode_table), Budget
--                 (estimate_tokens, fit_to_budget, assemble) and Build (build_prompt)
--   Delight       rust/starbridge-core/src/delight.rs: the scores and the gate
--   Sessions      the reducers for the sessions of agents: a requested cancellation
--   Panics        which reducers can end in a panic of the host
--   Runner        the worker of rust/starbridge-runner/src/main.rs: maybe_handle_step and
--                 maybe_handle_browser_task give the action that they take on a row,
--                 owner_for_stage, and shell_escape with a reader of shell words; Runner/Next has
--                 enqueue_next_step, with serde_json as a parameter, and Runner/Process has
--                 process_browser_task: the calls that a worker makes for a task it has claimed,
--                 with what the browser gives and what the connection refuses as parameters
--   Examples      the theorems applied to concrete tables
--
-- What is assumed of the SDK, as the laws of Store: a table is looked up by its primary key; insert
-- panics on a key that is taken and update on one that is not, delete does nothing on one that is not,
-- a write changes nothing at other keys, and iter yields the rows that are found. A reducer runs as
-- one transaction: on Err and on a panic nothing is written. The identity of a caller is an abstract
-- type. Calls are not concurrent: the host runs one after the other. Of serde_json it is assumed that
-- a printed object is not blank.
--
-- Numbers: an i64 and a Timestamp (microseconds) are integers, and the sum of claim_schedule_run
-- wraps at 64 bits; u32 and u64 arguments are natural numbers, and a theorem that depends on their
-- range says so. A text is its list of characters, and white space is Unicode's White_Space. The
-- only fuel is that of to_string (Prompt/Decimal): 20 digits, which is enough for 64 bits; all other
-- recursion is on the structure of a text or a list. The sums of u32 and u64 numbers wrap as in a
-- release build. The sort of the gate is an insertion sort; with a score that is not a number in the
-- window, the order that the standard library gives is not specified.
--
-- The runner reads its own copy of the tables, which the SDK keeps: in the theorems on the runner the
-- copy is the database that the call then meets.
--
-- Not modelled: the indexes that are not primary keys; the work that a runner does on a step, how it
-- runs the browser, its manifests and its sets of active ids, of which only the tasks are an argument
-- of process_browser_task; of rust/starbridge-core, the manifest of an agent, subscriptions.rs and the
-- scoring (calls of a model over HTTP); the desktop and web applications; and
-- rust/starbridge-control-client, which is generated.
pub mod Shared
pub mod Store
pub mod Text
pub mod Vocab
pub mod Validate
pub mod Rows
pub mod Db
pub mod Reducers
pub mod Sound
pub mod System
pub mod Chat
pub mod Claims
pub mod Float
pub mod Delight
pub mod Operators
pub mod Leases
pub mod Progress
pub mod Panics
pub mod Prompt
pub mod Sessions
pub mod Runner
pub mod Examples
