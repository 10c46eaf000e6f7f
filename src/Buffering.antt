-- ===== src/Buffering.antt =====
-- src/intramind_runtime/buffering.py, class BufferedSubmissions, with the tables of buffering.sql:
-- inputs that are accepted for later, and the batches that they are sealed into.
pub mod State
pub mod Append
pub mod Seal
pub mod Exclusive
pub mod Roots
pub mod Histories
pub mod Repeats
mod Scenarios
