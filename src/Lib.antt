-- ===== src/Lib.antt =====
-- The durable inference runtime of src/intramind_runtime: the ledger in which roots, operations,
-- attempts and budgets are kept, the outbox and the buffer of deferred submissions beside it, the
-- scheduler of engine capacity and the controller of its targets, the replay of model steps, the
-- check of a language repair, and the contracts that they are called with.
--
-- The parts and their files:
-- * Contracts models src/intramind_runtime/contracts.py: Contracts/Operation the artifacts, root
--   specifications and the three kinds of operation; Contracts/Pool the pool specifications;
--   Contracts/Workload the workload classes, with RANK and root_workload of
--   src/intramind_runtime/memory_scheduler.py.
-- * Table is what the ledger uses of a PostgreSQL table: rows found, updated, inserted, removed and
--   sorted by key; Table/Distinct and Table/Members are about the rows of a query.
-- * Ledger models the class Store of src/intramind_runtime/store.py. Ledger/State has the tables
--   of src/intramind_runtime/schema.sql and its later migrations; Ledger/Budgets the two places
--   where a budget stands; Ledger/Events `_event`, `_completion_events`, `_terminal` and
--   `_expire_operation`; Ledger/Settle `_settle`; Ledger/Attempts `_owned`, `owner_alive`,
--   `mark_send`, `heartbeat`, `compute_finished` and `unknown`; Ledger/Selection the candidates'
--   query of `reserve_next` and Ledger/Reserve its loop and its grant; Ledger/Results
--   `commit_result` and `fail`; Ledger/Runs `create_root`, `submit_operation`, `bind_completion`,
--   `cancel` and `finish_run`; Ledger/History these calls in any order; Ledger/Engine the owners'
--   leases, `quiesce_engine` and `update_target`; Ledger/Overlap those of `update_target` that overlap,
--   with the proofs in Ledger/Overlapping; Ledger/Pools `submit_run`, `configure_pool` and
--   `resume_engine`; Ledger/Stopping `confirm_epoch_stopped` and `_settle_stopped_attempt`, Ledger/Evidence
--   the evidence that they take, Ledger/Lost `settle_idle_unknown` and `_settle_lost_results`;
--   Ledger/Reconcile `reconcile_expired`;
--   Ledger/Steps all the transactions in any order.
-- * Ledger/Owned, Ledger/Fencing, Ledger/Charging, Ledger/Quiescence, Ledger/Resuming,
--   Ledger/Reconciled, Ledger/Balance and Ledger/Progress hold the proofs, and Ledger/Scenarios,
--   Ledger/Continuations and Ledger/Recoveries ledgers on which the theorems are used.
-- * Outbox models the delivery of runtime_outbox in the same class: `claim_events`, `delivered` and
--   `defer_event` in Outbox/Delivery, the proofs in Outbox/Claims.
-- * Scheduler models the class MemoryScheduler of src/intramind_runtime/memory_scheduler.py and the
--   requests of src/intramind_runtime/direct.py: Scheduler/State the dictionaries and SlotCapacity;
--   Scheduler/Queue `_add_waiter`, `_remove_waiter`, `_first`, `_validate`, `_enqueue` and `leave`;
--   Scheduler/Direct `_reserve`, `_direct`, `mark_send`, `heartbeat`, `finish` and `unknown`;
--   Scheduler/Trying `try_reserve`; Scheduler/Turns the calls in any order; Scheduler/Capacity,
--   Scheduler/Reserving, Scheduler/Refusing and Scheduler/Histories the proofs.
--   A permit that stands in two dictionaries is one row with a mark for each.
-- * Buffering models src/intramind_runtime/buffering.py and its tables in buffering.sql:
--   Buffering/Append `append` and `status`, Buffering/Seal `seal` and what `dispatch` and `tick`
--   write; Buffering/Exclusive, Buffering/Roots, Buffering/Histories and Buffering/Repeats the proofs.
-- * Controller models src/intramind_runtime/controller.py: Controller/Decision the profile's check
--   and `decide`, Controller/Bounds the proofs.
-- * Replay models src/intramind_runtime/model_step.py: Replay/Port the class ModelPort and
--   `plan_model_step`, with a leaf as a process that awaits the port; Replay/Accounting,
--   Replay/Refusal and Replay/Drive the proofs.
-- * Language models `_repair_keeps_fixed_tokens` of src/intramind_runtime/language.py:
--   Language/Tokens the check, Language/Order the proof.
--
-- How the parts interact: the API and the workflow adapter create roots and submit operations; an
-- executor reserves one with `reserve_next`, and the Reservation that it gets names the attempt,
-- its owner and its lease epoch. Every later call of the executor shows it, and `_owned` compares
-- it with the rows. `cancel`, `finish_run` and the settlement of other attempts come in between.
-- Foreground requests bypass the ledger: they wait for the scheduler, which grants them a permit.
-- A batch of buffered inputs becomes a run with the batch's identity, and the buffer reads the state
-- of that root from the ledger.
--
-- How the code is represented: identities, digests and clocks are natural numbers, instants are
-- counted in microseconds, and object keys are lists of characters. A transaction is a function
-- from the ledger to a result; one that raises leaves the ledger as it was. A history is a list of
-- transactions of which each commits before the next begins, and a call's clocks (the
-- transaction's, the database's and the process's) are arguments without any assumed relation. Most
-- transactions lock the rows that they decide on, so that those which meet on a row do follow each
-- other. `cancel`, `finish_run`, `commit_result` in its read of the operation, `reconcile_expired`
-- in its read of the attempts and `update_target` read without a lock and write without a guard on
-- what they read: of such transactions that overlap, the theorems on histories say nothing.
-- Ledger/Overlap takes those of `update_target` apart into their SELECT and their UPDATE. An UPDATE
-- by primary key changes the first row that has it. A CHECK or a unique key that refuses a
-- statement is the error `integrity_error`. The SHA-256 digests (of an object's prefix, of a
-- request, an item and a batch), the regular expression that finds a text's fixed tokens and
-- Python's digit test are parameters. Floats of the controller are counted in millionths, durations
-- in microseconds. There is no fuel: every loop runs over a list, or over the bound that the code
-- gives it.
--
-- Not modelled: `pg_notify`, connections and row locks; the bounds on the lengths of texts; the
-- ledger's reads for inspection; in buffering.py the payload and the submission of a batch and the
-- loop of `tick`; in memory_scheduler.py the durable permits and the recovery after a restart; in
-- language.py the repair itself; and the HTTP, Temporal, S3 and engine adapters, which call these
-- parts or other services.
pub mod Base
pub mod Contracts
pub mod Table
pub mod Buffering
pub mod Controller
pub mod Language
pub mod Ledger
pub mod Outbox
pub mod Replay
pub mod Scheduler
