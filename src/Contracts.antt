-- ===== src/Contracts.antt =====
-- src/intramind_runtime/contracts.py: the value types of the wire, and workload.py.
-- Identifiers, labels and digests are only compared, so they are numbers; an object key is the list
-- of its code points, since its prefix is read. An instant is a number of microseconds, so every
-- one is comparable (the validators refuse a naive datetime). `attempt_timeout` is
-- `timedelta(seconds=attempt_timeout_seconds)` in microseconds.
pub mod Operation
pub mod Pool
pub mod Workload
