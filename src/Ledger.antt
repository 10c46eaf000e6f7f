-- ===== src/Ledger.antt =====
-- src/intramind_runtime/store.py, class Store: the PostgreSQL authority for admission, attempts,
-- budgets and settlement, with the tables of schema.sql, speech_budget.sql, embedding_budget.sql
-- and admission_v2.sql. An operation takes the ledger and returns it, or raises; a raise rolls the
-- transaction back. `pg_notify` (`_wake`) writes no table and is left out.
pub mod State
pub mod Budgets
pub mod Events
pub mod Settle
pub mod Attempts
pub mod Selection
pub mod Reserve
pub mod Results
pub mod Runs
pub mod History
pub mod Owned
pub mod Fencing
pub mod Charging
pub mod Progress
pub mod Pools
pub mod Evidence
pub mod Stopping
pub mod Lost
pub mod Reconcile
pub mod Engine
pub mod Overlap
pub mod Overlapping
pub mod Steps
pub mod Quiescence
pub mod Reconciled
pub mod Resuming
mod Scenarios
mod Recoveries
mod Continuations
pub mod Balance
