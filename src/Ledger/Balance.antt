-- ===== src/Ledger/Balance.antt =====
-- The budget invariant of store.py, and its proofs operation by operation: `reserved` is the sum of
-- the bounds that unsettled attempts hold, `spent` the sum of the usage of the settled ones.
pub mod Invariant
pub mod Columns
pub mod Frame
pub mod Quiet
pub mod Rebook
pub mod Settling
pub mod Relabel
pub mod Sending
pub mod Ending
pub mod Opening
pub mod Submitting
pub mod Closing
pub mod Reserving
pub mod Turns
pub mod Stopping
pub mod Stopped
pub mod Reconciling
pub mod Histories
pub mod Steps
