-- ===== src/Controller.antt =====
-- src/intramind_runtime/controller.py: the capacity decision for a pool.
pub mod Decision
pub mod Bounds
mod Scenarios
