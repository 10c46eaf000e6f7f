-- ===== src/Outbox.antt =====
-- src/intramind_runtime/store.py: the delivery of the outbox, `claim_events`, `delivered` and
-- `defer_event`.
pub mod Delivery
pub mod Claims
mod Scenarios
