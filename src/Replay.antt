-- ===== src/Replay.antt =====
-- src/intramind_runtime/model_step.py: a model leaf is replayed on the responses that its caller has
-- recorded, up to the first request that has no response yet.
pub mod Port
pub mod Accounting
pub mod Refusal
pub mod Drive
mod Scenarios
