-- ===== src/Ledger/Stopping.antt =====
-- store.py: the settlement of attempts whose inference is proven over: `confirm_epoch_stopped` and
-- `_settle_stopped_attempt`.
use mta_runtime_intramind.Base.{
  ℕ, ◌+◌, Bool, true, false, not, ◌&&◌, ◌||◌, Option, none, some, List, [], ◌∷◌, ltb, leb, ◌==◌,
  if◌then◌else◌, select, count, length, Result, ok, ◌>>=◌, ◌>>◌, guard, raise_if, or_raise,
  runtime_conflict, value_error, evidence_required, epoch_mismatch, not_quiesced,
}
use mta_runtime_intramind.Base.Int.{pos}
use mta_runtime_intramind.Contracts.Operation.{budget_unit, budget_bound}
use mta_runtime_intramind.Table.{find, update, update_where, rows, order_by}
use mta_runtime_intramind.Ledger.State.{
  Ledger, Clock, Root, Operation, OperationState, Attempt, AttemptState, Reason,
  engine_epoch_stopped, engine_recovery, Budget, unavailable, Pool, DirectAttempt, DirectState,
  is_terminal, is_running, is_reserved, root_key, operation_key, attempt_key, pool_key,
}
use mta_runtime_intramind.Ledger.Budgets.{budget_of}
use mta_runtime_intramind.Ledger.Events.{terminal}
use mta_runtime_intramind.Ledger.Settle.{settle}
use mta_runtime_intramind.Ledger.Attempts.{Joined, join, names, or_now, affords}
use mta_runtime_intramind.Ledger.Reserve.{is_healthy}
use mta_runtime_intramind.Ledger.Results.{is_backend_finished}
use mta_runtime_intramind.Ledger.Evidence.{StopEvidence, is_blank, check_proof, check_evidence}

-- The rows of attempts JOIN operations JOIN roots; a foreign key keeps each partner.
unfoldable pub join_each : Ledger → List Attempt → List Joined
unfolding join
join_each s [] = []
join_each s (a ∷ rest) = elim (join s a.attempt_id) [
  | none ↦ join_each s rest
  | some j ↦ j ∷ join_each s rest
]

unfoldable pub joined_rows : Ledger → List Joined
unfolding join_each rows
joined_rows s = join_each s (rows attempt_key s.attempts)

abbrev pub created : Joined → ℕ
created j = j.attempt.created_at

-- The loop over the rows of a query. They are read once, and each turn works on what it was given.
unfoldable pub each_row : (Joined → Ledger → Result Ledger) → List Joined → Ledger → Result Ledger
each_row turn [] s = ok s
each_row turn (j ∷ js) s = turn j s >>= λ s'. each_row turn js s'

abbrev pub stopped_row : Clock → Reason → Attempt → Attempt
stopped_row c error a = record a {
  state = AttemptState.failed;
  compute_held = false;
  backend_finished_at = or_now a.backend_finished_at c.transaction;
  error_class = some error;
}

abbrev pub deadline_passed : Clock → Option ℕ → Bool
deadline_passed c none = false
deadline_passed c (some deadline) = leb deadline c.process

-- `can_retry`, for the root as it is now and the operation as the query has read it
unfoldable pub can_retry : Clock → Bool → Joined → Option Root → Option Budget → Bool
can_retry c recover j none budget = false
can_retry c recover j (some root) budget =
    recover
    && is_running root.state
    && not root.cancel_requested
    && ltb c.process root.deadline
    && not (deadline_passed c j.operation.spec.deadline)
    && ltb j.operation.attempts j.operation.spec.max_attempts
    && ltb root.attempts j.root.spec.max_attempts
    && affords (budget_bound j.operation.spec) budget

-- `WHERE operation_id=:id AND active_attempt=:old`
abbrev pub retry_operation : Clock → ℕ → Reason → Operation → Operation
retry_operation c old reason o =
    if names o.active_attempt old
    then record o {
      state = OperationState.retry_wait;
      active_attempt = none;
      wait_reason = some reason;
      retry_at = some c.transaction;
    }
    else o

-- The operation of an attempt that was stopped.
unfoldable pub after_stop : Clock → Bool → Reason → Reason → Joined → Ledger → Ledger
unfolding can_retry terminal budget_of
after_stop c recover error retry j s =
    let root = find root_key j.operation.root_id s.roots in
    let budget = budget_of s j.operation.root_id (budget_unit j.operation.spec) in
    if is_terminal j.operation.state
    then s
    else if can_retry c recover j root budget
    then record s {
      operations =
          update operation_key j.attempt.operation_id (retry_operation c j.attempt.attempt_id retry)
            s.operations;
    }
    else terminal c j.attempt.operation_id OperationState.failed error s

-- `_settle_stopped_attempt`
unfoldable pub settle_stopped_attempt :
    Clock → Bool → Reason → Reason → Joined → Ledger → Result Ledger
unfolding settle after_stop
settle_stopped_attempt c recover error retry j s = do
  s' ←
      settle c j.attempt j.operation.root_id
        (if is_reserved j.attempt.state then some (pos 0) else none) s
  ok (
      after_stop c recover error retry j (record s' {
        attempts = update attempt_key j.attempt.attempt_id (stopped_row c error) s'.attempts;
      }))

abbrev pub of_epoch : ℕ → ℕ → Attempt → Bool
of_epoch pool epoch a = a.pool_id == pool && a.engine_epoch == epoch

-- `recover and a["state"] == "BACKEND_FINISHED" and not a["compute_held"]`: the owner of such an
-- attempt may still commit its result.
abbrev pub keeps_result : Bool → Attempt → Bool
keeps_result recover a = recover && is_backend_finished a.state && not a.compute_held

abbrev pub to_stop : Bool → ℕ → ℕ → Joined → Bool
to_stop recover pool epoch j =
    of_epoch pool epoch j.attempt
    && (j.attempt.compute_held || j.attempt.budget_held)
    && not (keeps_result recover j.attempt)

abbrev pub of_direct_epoch : ℕ → ℕ → DirectAttempt → Bool
of_direct_epoch pool epoch d = d.pool_id == pool && d.engine_epoch == epoch && d.compute_held

abbrev pub stop_direct : Clock → DirectState → Reason → DirectAttempt → DirectAttempt
stop_direct c state error d = record d {
  state = state;
  compute_held = false;
  backend_finished_at = or_now d.backend_finished_at c.transaction;
  error_class = some error;
}

abbrev pub direct_stopped : Bool → DirectState
direct_stopped true = DirectState.failed_recoverable
direct_stopped false = DirectState.failed

abbrev pub stop_pool : Pool → Pool
stop_pool p = record p { target = 0; health = unavailable }

-- Its first two UPDATEs.
abbrev pub stop_endpoint : Clock → Bool → ℕ → ℕ → Ledger → Ledger
stop_endpoint c recover pool epoch s = record s {
  pools = update pool_key pool stop_pool s.pools;
  direct_attempts =
      update_where (of_direct_epoch pool epoch)
        (stop_direct c (direct_stopped recover) engine_epoch_stopped) s.direct_attempts;
}

-- `confirm_epoch_stopped`; `note` is the reason that is written, which quotes the evidence
unfoldable pub confirm_epoch_stopped :
    Clock → ℕ → ℕ → StopEvidence → Bool → ℕ → Ledger → Result (Ledger × ℕ)
unfolding check_proof joined_rows order_by each_row settle_stopped_attempt
confirm_epoch_stopped c pool epoch evidence recover note s = do
  raise_if (is_blank evidence) (value_error evidence_required)
  check_evidence recover pool epoch evidence
  p ← or_raise (find pool_key pool s.pools) (runtime_conflict epoch_mismatch)
  guard (p.engine_epoch == epoch) (runtime_conflict epoch_mismatch)
  raise_if (recover && is_healthy p.health) (runtime_conflict not_quiesced)
  let stopping = stop_endpoint c recover pool epoch s
  let held = order_by created (select (to_stop recover pool epoch) (joined_rows stopping))
  t ← each_row (settle_stopped_attempt c recover engine_epoch_stopped engine_recovery) held stopping
  ok (
    record t {
      controller_updates =
          record {
            pool_id = pool;
            envelope_version = p.envelope_version;
            target = 0;
            reason = note;
          }
          ∷ t.controller_updates;
    },
    length held + count (of_direct_epoch pool epoch) s.direct_attempts,
  )
