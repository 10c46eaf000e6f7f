-- ===== src/Ledger/Progress.antt =====
-- How the rows of store.py's roots, operations and attempts change: each call moves a row forward,
-- and a row that has reached an end stays there.
pub mod Follows
pub mod Steps
pub mod Parts
pub mod Owners
pub mod Roots
pub mod Grants
pub mod Histories
pub mod Sendable
pub mod Superseded
