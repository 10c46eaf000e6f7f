-- ===== src/Ledger/Events.antt =====
-- store.py: `_event`, `_completion_events`, `_terminal` and `_expire_operation`.
use mta_runtime_intramind.Base.{
  ℕ, Bool, true, false, Option, none, some, List, [], ◌∷◌, ◌==◌, leb, if◌then◌else◌,
}
use mta_runtime_intramind.Contracts.Operation.{OperationSpec}
use mta_runtime_intramind.Table.{update}
use mta_runtime_intramind.Ledger.State.{
  Ledger, Clock, Event, EventId, start_workflow, cancel_workflow, complete_activity, Binding,
  Operation, OperationState, Reason, operation_deadline_exceeded, is_terminal, operation_key,
}

abbrev pub same_event : EventId → EventId → Bool
same_event (start_workflow a) (start_workflow b) = a == b
same_event (cancel_workflow a) (cancel_workflow b) = a == b
same_event (complete_activity a) (complete_activity b) = a == b
same_event _ _ = false

unfoldable pub has_event : EventId → List Event → Bool
has_event id [] = false
has_event id (e ∷ es) = if same_event e.event_id id then true else has_event id es

-- The columns that an INSERT leaves to their defaults are available_at, deliveries and created_at.
abbrev pub new_event : Clock → EventId → ℕ → Event
new_event c id aggregate = record {
  event_id = id;
  aggregate_id = aggregate;
  available_at = c.transaction;
  owner_id = none;
  lease_expires_at = none;
  delivered_at = none;
  deliveries = 0;
  created_at = c.transaction;
}

-- `INSERT … ON CONFLICT(event_id) DO NOTHING`
unfoldable pub add_event : Clock → EventId → ℕ → List Event → List Event
add_event c id aggregate es = if has_event id es then es else new_event c id aggregate ∷ es

-- `_event`
unfoldable pub event : Clock → EventId → ℕ → Ledger → Ledger
event c id aggregate s = record s { outbox = add_event c id aggregate s.outbox }

-- One event for each binding of the operation.
unfoldable pub completions : Clock → ℕ → List Binding → List Event → List Event
completions c operation [] es = es
completions c operation (b ∷ bs) es = completions c operation bs (
    if b.operation_id == operation
    then add_event c (complete_activity b.binding_id) operation es
    else es)

-- `_completion_events`
unfoldable pub completion_events : Clock → ℕ → Ledger → Ledger
completion_events c operation s = record s { outbox = completions c operation s.bindings s.outbox }

-- The UPDATE of `_terminal`, which passes over an operation that has ended.
abbrev pub end_operation : OperationState → Reason → Operation → Operation
end_operation state reason o =
    if is_terminal o.state then o else record o { state = state; wait_reason = some reason }

-- `_terminal`
unfoldable pub terminal : Clock → ℕ → OperationState → Reason → Ledger → Ledger
unfolding completion_events
terminal c operation state reason s = completion_events c operation (record s {
  operations = update operation_key operation (end_operation state reason) s.operations;
})

-- The test of `_expire_operation`: the deadline has come by the clock that was read.
abbrev pub expired : Option ℕ → ℕ → Bool
expired none observed_at = false
expired (some deadline) observed_at = leb deadline observed_at

-- `_expire_operation`, with what it returns
unfoldable pub expire_operation : Clock → OperationSpec → ℕ → Ledger → Ledger × Bool
unfolding terminal
expire_operation c spec observed_at s =
    if expired spec.deadline observed_at
    then (terminal c spec.operation_id OperationState.failed operation_deadline_exceeded s, true)
    else (s, false)
