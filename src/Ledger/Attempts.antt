-- ===== src/Ledger/Attempts.antt =====
-- store.py: the operations of the owner of an attempt, `_owned` to `unknown`.
use mta_runtime_intramind.Base.{
  ℕ, ◌+◌, min, Bool, true, false, not, ◌&&◌, ◌||◌, Option, none, some, ltb, leb, ◌==◌,
  if◌then◌else◌, Result, ok, ◌>>=◌, ◌>>◌, or_raise, guard, runtime_conflict, send_budget,
  stale_attempt_ownership, attempt_cannot_send, send_attempts_exhausted, send_budget_unavailable,
}
use mta_runtime_intramind.Contracts.Operation.{OperationSpec, Priority, budget_unit, budget_bound}
use mta_runtime_intramind.Table.{find, update}
use mta_runtime_intramind.Ledger.State.{
  Ledger, Clock, Root, Operation, OperationState, Attempt, AttemptState, Reason, Budget,
  is_terminal, is_settled, is_running, is_reserved, is_executing, root_key, operation_key,
  attempt_key, owner_key,
}
use mta_runtime_intramind.Ledger.Budgets.{budget_of, adjust_budget}
use mta_runtime_intramind.Ledger.Events.{expire_operation}

-- contracts.Reservation
pub record Reservation : Type 0 where
  pub attempt_id : ℕ
  pub operation : OperationSpec
  pub pool_id : ℕ
  pub engine_epoch : ℕ
  pub model_revision : ℕ
  pub owner_id : ℕ
  pub lease_epoch : ℕ
  pub sent_attempts : ℕ
  pub attempt_deadline : ℕ
  pub workload_class : Priority

-- The row that the join of an attempt, its operation and its root gives.
pub record Joined : Type 0 where
  pub attempt : Attempt
  pub operation : Operation
  pub root : Root

unfoldable pub join : Ledger → ℕ → Option Joined
join s id = elim (find attempt_key id s.attempts) [
  | none ↦ none
  | some a ↦ elim (find operation_key a.operation_id s.operations) [
    | none ↦ none
    | some o ↦ elim (find root_key o.root_id s.roots) [
      | none ↦ none
      | some r ↦ some (record { attempt = a; operation = o; root = r })
    ]
  ]
]

abbrev pub names : Option ℕ → ℕ → Bool
names none id = false
names (some x) id = x == id

-- The fence: owner, lease epoch and the operation's active attempt.
abbrev pub holds : Reservation → Joined → Bool
holds res j =
    j.attempt.owner_id == res.owner_id
    && j.attempt.lease_epoch == res.lease_epoch
    && names j.operation.active_attempt res.attempt_id

-- `_owned`
unfoldable pub owned : Reservation → Ledger → Result Joined
unfolding join
owned res s = do
  j ← or_raise (join s res.attempt_id) (runtime_conflict stale_attempt_ownership)
  guard (holds res j) (runtime_conflict stale_attempt_ownership)
  ok j

-- `owner_alive`
unfoldable pub owner_alive : Clock → ℕ → Ledger → Bool
owner_alive c id s = elim (find owner_key id s.owners) [
  | none ↦ false
  | some o ↦ ltb c.database o.lease_expires_at
]

-- `spec.deadline or default`
abbrev pub deadline_or : Option ℕ → ℕ → ℕ
deadline_or none default = default
deadline_or (some d) default = d

-- The earliest of the root's deadline, the operation's and the attempt's own timeout.
abbrev pub send_deadline : Joined → ℕ
send_deadline j =
    min (min j.root.deadline (deadline_or j.operation.spec.deadline j.root.deadline))
      (j.attempt.created_at + j.operation.spec.attempt_timeout)

unfoldable pub can_send : Clock → Reservation → Joined → Ledger → Bool
unfolding owner_alive
can_send c res j s =
    is_reserved j.attempt.state
    && is_executing j.operation.state
    && (ltb c.database j.attempt.lease_expires_at || owner_alive c res.owner_id s)
    && not j.root.cancel_requested
    && is_running j.root.state
    && ltb c.database (send_deadline j)

abbrev pub reserve : ℕ → Budget → Budget
reserve bound b = record b { reserved = b.reserved + bound }

abbrev pub count_operation_attempt : Operation → Operation
count_operation_attempt o = record o { attempts = o.attempts + 1 }

abbrev pub count_root_attempt : Root → Root
count_root_attempt r = record r { attempts = r.attempts + 1 }

-- The second check of `mark_send`, on the rows read again under their locks.
unfoldable pub still_sendable : Clock → Reservation → Joined → Root → Operation → Bool
still_sendable c res j root operation =
    is_running root.state
    && not root.cancel_requested
    && ltb c.process root.deadline
    && ltb c.process (send_deadline j)
    && is_executing operation.state
    && names operation.active_attempt res.attempt_id

-- `budget is None or spent + reserved + bound > budget_limit`, negated
abbrev pub affords : ℕ → Option Budget → Bool
affords bound none = false
affords bound (some b) = leb (b.spent + b.reserved + bound) b.limit

-- The charge for a send that has none yet.
unfoldable pub charge_send : Clock → Reservation → Joined → Ledger → Result Ledger
unfolding still_sendable
charge_send c res j s = do
  let spec = j.operation.spec
  root ← or_raise (find root_key j.operation.root_id s.roots) (runtime_conflict attempt_cannot_send)
  operation ←
      or_raise (find operation_key j.attempt.operation_id s.operations)
        (runtime_conflict attempt_cannot_send)
  guard (still_sendable c res j root operation) (runtime_conflict attempt_cannot_send)
  guard (ltb operation.attempts spec.max_attempts && ltb root.attempts root.spec.max_attempts)
      (send_budget send_attempts_exhausted)
  guard (affords (budget_bound spec) (budget_of s j.operation.root_id (budget_unit spec)))
      (send_budget send_budget_unavailable)
  ok (
      adjust_budget j.operation.root_id (budget_unit spec) (reserve (budget_bound spec)) (record s {
        operations =
            update operation_key j.attempt.operation_id count_operation_attempt s.operations;
        roots = update root_key j.operation.root_id count_root_attempt s.roots;
      }))

abbrev pub send_intent_row : Clock → Attempt → Attempt
send_intent_row c a = record a {
  state = AttemptState.send_intent;
  compute_held = true;
  budget_held = true;
  send_intent_at = some c.transaction;
}

-- `mark_send`
unfoldable pub mark_send : Clock → Reservation → Ledger → Result Ledger
unfolding owned can_send charge_send
mark_send c res s = do
  j ← owned res s
  guard (can_send c res j s) (runtime_conflict attempt_cannot_send)
  s' ← (if j.attempt.budget_held then ok s else charge_send c res j s)
  ok (record s' { attempts = update attempt_key res.attempt_id (send_intent_row c) s'.attempts })

abbrev pub is_open : AttemptState → Bool
is_open AttemptState.reserved = true
is_open AttemptState.send_intent = true
is_open AttemptState.active = true
is_open AttemptState.backend_finished = true
is_open _ = false

-- `heartbeat`, with what it returns: whether the work is still wanted
unfoldable pub heartbeat : Clock → ℕ → Reservation → Ledger → Result (Ledger × Bool)
unfolding owned owner_alive
heartbeat c lease res s = do
  j ← owned res s
  let extend = λ (a : Attempt). record a { lease_expires_at = c.process + lease }
  let s' =
      if owner_alive c res.owner_id s
      then s
      else record s { attempts = update attempt_key res.attempt_id extend s.attempts }
  let wanted =
      not j.root.cancel_requested && is_running j.root.state && not (is_terminal j.operation.state)
  ok (if is_open j.attempt.state then (s', wanted) else (s, false))

abbrev pub or_now : Option ℕ → ℕ → Option ℕ
or_now none now = some now
or_now (some t) now = some t

abbrev pub finish_compute : Clock → Attempt → Attempt
finish_compute c a = record a {
  compute_held = false;
  backend_finished_at = or_now a.backend_finished_at c.transaction;
  state = AttemptState.backend_finished;
}

-- `compute_finished`
unfoldable pub compute_finished : Clock → Reservation → Ledger → Result Ledger
unfolding owned
compute_finished c res s = do
  j ← owned res s
  ok (
      if is_settled j.attempt.state
      then s
      else record s { attempts = update attempt_key res.attempt_id (finish_compute c) s.attempts })

abbrev pub lose : Clock → Reason → Attempt → Attempt
lose c reason a = record a {
  state = AttemptState.unknown;
  error_class = some reason;
  unknown_at = or_now a.unknown_at c.transaction;
}

abbrev pub wait_reconciling : Reason → Operation → Operation
wait_reconciling reason o = record o {
  state = OperationState.reconciling;
  wait_reason = some reason;
}

-- `unknown`: the outcome is lost, so what the attempt holds stays held.
unfoldable pub unknown : Clock → Reservation → Reason → Ledger → Result Ledger
unfolding owned expire_operation
unknown c res reason s = do
  j ← owned res s
  let lost = record s { attempts = update attempt_key res.attempt_id (lose c reason) s.attempts }
  let (s', gone) = expire_operation c j.operation.spec c.database lost
  let reconciling = record s' {
    operations =
        update operation_key j.attempt.operation_id (wait_reconciling reason) s'.operations;
  }
  ok (
      if is_settled j.attempt.state
      then s
      else if gone || is_terminal j.operation.state
      then s'
      else reconciling)
