-- ===== src/Scheduler.antt =====
-- src/intramind_runtime/memory_scheduler.py: the one owner of endpoint capacity, kept in memory, and
-- the direct requests of src/intramind_runtime/direct.py that it serves.
pub mod State
pub mod Queue
pub mod Direct
pub mod Trying
pub mod Turns
pub mod Capacity
pub mod Reserving
pub mod Refusing
pub mod Histories
mod Scenarios
