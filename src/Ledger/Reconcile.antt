-- ===== src/Ledger/Reconcile.antt =====
-- store.py: `reconcile_expired`, which ends what has expired. `now()` and `clock_timestamp()` are
-- the two clocks of its transaction.
use mta_runtime_intramind.Base.{
  ℕ, ◌+◌, suc, zero, Bool, true, false, not, ◌&&◌, ◌||◌, Option, none, some, List, [], ◌∷◌, ltb,
  leb, ◌==◌, if◌then◌else◌, select, all, contains, count, length, map, Result, ok, ◌>>=◌,
}
use mta_runtime_intramind.Base.Int.{pos}
use mta_runtime_intramind.Contracts.Operation.{OperationSpec, Demand, budget_bound}
use mta_runtime_intramind.Contracts.Pool.{
  PoolSpec, Kind, kind_of, same_kind, request_limit, max_batch_size,
}
use mta_runtime_intramind.Table.{find, update, update_where, rows, order_by}
use mta_runtime_intramind.Ledger.State.{
  Ledger, Clock, Root, RootState, Operation, OperationState, Attempt, AttemptState, Reason,
  root_terminal, operation_deadline_exceeded, deadline_exceeded, unknown_compute_or_result,
  lease_expired_before_send, lease_expired_after_send, capacity_profile_changed,
  model_revision_changed, context_exceeds_all_pools, request_exceeds_all_pools, Pool, DirectAttempt,
  DirectState, DirectWaiter, is_terminal, is_running, is_reserved, root_key, operation_key,
  attempt_key,
}
use mta_runtime_intramind.Ledger.Events.{terminal}
use mta_runtime_intramind.Ledger.Settle.{settle}
use mta_runtime_intramind.Ledger.Attempts.{Joined, is_open, or_now, wait_reconciling}
use mta_runtime_intramind.Ledger.Results.{is_backend_finished}
use mta_runtime_intramind.Ledger.Runs.{end_each}
use mta_runtime_intramind.Ledger.Stopping.{joined_rows, each_row}
use mta_runtime_intramind.Ledger.Lost.{has_lease, settle_lost_results}

-- One day, in microseconds.
abbrev pub day : ℕ
day = 86400000000

abbrev pub is_over : DirectState → Bool
is_over DirectState.finished = true
is_over DirectState.failed_not_sent = true
is_over DirectState.failed = true
is_over DirectState.failed_recoverable = true
is_over _ = false

abbrev pub is_old : Clock → DirectAttempt → Bool
is_old c d = is_over d.state && not d.compute_held && ltb (d.created_at + day) c.transaction

abbrev pub is_unsent : DirectState → Bool
is_unsent DirectState.reserved = true
is_unsent _ = false

abbrev pub is_direct_underway : DirectState → Bool
is_direct_underway DirectState.reserved = true
is_direct_underway DirectState.send_intent = true
is_direct_underway _ = false

abbrev pub is_direct_expired : Clock → Ledger → DirectAttempt → Bool
is_direct_expired c s d =
    is_direct_underway d.state
    && (leb d.deadline c.database
        || (leb d.lease_expires_at c.database && not (has_lease c.database d.owner_id s)))

abbrev pub expire_direct : Clock → DirectAttempt → DirectAttempt
expire_direct c d = record d {
  state = if is_unsent d.state then DirectState.failed_not_sent else DirectState.unknown;
  compute_held = not (is_unsent d.state);
  unknown_at = if is_unsent d.state then none else or_now d.unknown_at c.transaction;
  error_class =
      some (if is_unsent d.state then lease_expired_before_send else lease_expired_after_send);
}

abbrev pub still_waits : Clock → Ledger → DirectWaiter → Bool
still_waits c s w = not (leb w.deadline c.database) && has_lease c.database w.owner_id s

-- The statements on the tables of direct requests, and the number of attempts that expired.
unfoldable pub expire_directs : Clock → Ledger → Ledger × ℕ
unfolding has_lease
expire_directs c s =
    let recent = select (λ d. not (is_old c d)) s.direct_attempts in
    (
      record s {
        direct_attempts = update_where (is_direct_expired c s) (expire_direct c) recent;
        direct_waiters = select (still_waits c s) s.direct_waiters;
      },
      count (is_direct_expired c s) recent,
    )

-- The identities of the operations that a query selects.
unfoldable pub operation_ids : (Operation → Bool) → Ledger → List ℕ
unfolding rows
operation_ids p s = map operation_key (select p (rows operation_key s.operations))

abbrev pub has_passed : ℕ → Option ℕ → Bool
has_passed at none = false
has_passed at (some deadline) = leb deadline at

abbrev pub is_late : Clock → Operation → Bool
is_late c o = not (is_terminal o.state) && has_passed c.database o.spec.deadline

-- The attempts that the query of `reconcile_expired` finds.
unfoldable pub is_expired : Clock → Ledger → Joined → Bool
unfolding has_lease
is_expired c s j =
    ((ltb j.attempt.lease_expires_at c.transaction
        && not (has_lease c.transaction j.attempt.owner_id s))
      || (is_reserved j.attempt.state && is_terminal j.operation.state))
    && is_open j.attempt.state
    && not (is_backend_finished j.attempt.state && not j.attempt.compute_held)

abbrev pub unsent_row : Attempt → Attempt
unsent_row a = record a {
  state = AttemptState.failed_not_sent;
  compute_held = false;
  error_class = some lease_expired_before_send;
}

abbrev pub ready_again : Operation → Operation
ready_again o =
    if is_terminal o.state
    then o
    else record o { state = OperationState.ready; active_attempt = none }

abbrev pub lost_row : Clock → Attempt → Attempt
lost_row c a = record a {
  state = AttemptState.unknown;
  unknown_at = some c.transaction;
  error_class = some lease_expired_after_send;
}

abbrev pub reconciling_again : Operation → Operation
reconciling_again o =
    if is_terminal o.state then o else wait_reconciling unknown_compute_or_result o

-- One turn of its loop: what was not sent is given back, what was sent is unknown.
unfoldable pub expire_attempt : Clock → Joined → Ledger → Result Ledger
unfolding settle
expire_attempt c j s =
    if is_reserved j.attempt.state
    then (do
      s' ← settle c j.attempt j.operation.root_id (some (pos 0)) s
      ok (record s' {
        attempts = update attempt_key j.attempt.attempt_id unsent_row s'.attempts;
        operations = update operation_key j.attempt.operation_id ready_again s'.operations;
      }))
    else ok (record s {
      attempts = update attempt_key j.attempt.attempt_id (lost_row c) s.attempts;
      operations = update operation_key j.attempt.operation_id reconciling_again s.operations;
    })

abbrev pub is_queued : OperationState → Bool
is_queued OperationState.ready = true
is_queued OperationState.retry_wait = true
is_queued _ = false

abbrev pub root_is : (Root → Bool) → Ledger → Operation → Bool
root_is p s o = elim (find root_key o.root_id s.roots) [ none ↦ false | some r ↦ p r ]

abbrev pub kind_of_demand : Demand → Kind
kind_of_demand (Demand.llm i o) = Kind.llm
kind_of_demand (Demand.speech c) = Kind.speech
kind_of_demand (Demand.embedding r c t) = Kind.embedding

abbrev pub is_compatible : OperationSpec → PoolSpec → Bool
is_compatible spec p =
    p.model_profile == spec.model_profile
    && same_kind (kind_of p.resource) (kind_of_demand spec.demand)
    && all (λ capability. contains capability p.capabilities) spec.required_capabilities

-- The compatible pools of the profile that the operation names, or the reason that none is left.
abbrev pub of_profile : Option ℕ → List PoolSpec → List PoolSpec
of_profile none pools = pools
of_profile (some profile) pools = select (λ p. p.profile_id == profile) pools

abbrev pub of_revision : Demand → List PoolSpec → List PoolSpec
of_revision (Demand.embedding revision c t) pools = select (λ p. p.model_revision == revision) pools
of_revision _ pools = pools

abbrev pub too_small : OperationSpec → Demand → PoolSpec → Bool
too_small spec (Demand.embedding r c texts) p =
    ltb (request_limit p.resource) (budget_bound spec) || ltb (max_batch_size 0 p.resource) texts
too_small spec _ p = ltb (request_limit p.resource) (budget_bound spec)

abbrev pub exceeds_all : Demand → Reason
exceeds_all (Demand.llm i o) = context_exceeds_all_pools
exceeds_all _ = request_exceeds_all_pools

abbrev pub is_empty : {A : Type 0} → List A → Bool
is_empty [] = true
is_empty (x ∷ xs) = false

-- Why no configured pool will ever serve the operation; with no compatible pool it keeps waiting.
unfoldable pub impossible : List PoolSpec → OperationSpec → Option Reason
impossible pools spec =
    let compatible = select (is_compatible spec) pools in
    let profiled = of_profile spec.capacity_profile_id compatible in
    let revised = of_revision spec.demand profiled in
    if is_empty compatible
    then none
    else if is_empty profiled
    then some capacity_profile_changed
    else if is_empty revised
    then some model_revision_changed
    else if all (too_small spec spec.demand) revised
    then some (exceeds_all spec.demand)
    else none

unfoldable pub take {ℓ} : {A : Type ℓ} → ℕ → List A → List A
take n [] = []
take zero (x ∷ xs) = []
take (suc n) (x ∷ xs) = x ∷ take n xs

abbrev pub operation_created : Operation → ℕ
operation_created o = o.created_at

unfoldable pub queued : Ledger → List Operation
unfolding take rows order_by
queued s =
    take 256 (
      order_by operation_created
        (select (λ o. is_queued o.state) (rows operation_key s.operations)))

unfoldable pub end_impossible : Clock → List PoolSpec → List Operation → Ledger → Ledger
unfolding impossible terminal
end_impossible c pools [] s = s
end_impossible c pools (o ∷ os) s = end_impossible c pools os (elim (impossible pools o.spec) [
  | none ↦ s
  | some reason ↦ terminal c o.operation_id OperationState.failed reason s
])

abbrev pub root_expired : Clock → Root → Bool
root_expired c r = is_running r.state && leb r.deadline c.transaction

abbrev pub expire_root : Clock → Root → Root
expire_root c r = record r {
  state = RootState.failed;
  terminal_reason = some deadline_exceeded;
  finished_at = some c.transaction;
}

abbrev pub is_overdue : Clock → Ledger → Operation → Bool
is_overdue c s o = is_queued o.state && root_is (λ r. leb r.deadline c.transaction) s o

abbrev pub is_orphan : Ledger → Operation → Bool
is_orphan s o = not (is_terminal o.state) && root_is (λ r. not (is_running r.state)) s o

-- What comes after the loop: the queued operations of expired roots, those that no pool can serve,
-- the roots, and the operations that an ended root leaves behind.
unfoldable pub end_overdue : Clock → Ledger → Ledger
unfolding end_each operation_ids
end_overdue c s =
    end_each c (operation_ids (is_overdue c s) s) OperationState.failed deadline_exceeded s

unfoldable pub end_unservable : Clock → Ledger → Ledger
unfolding end_impossible queued
end_unservable c s = end_impossible c (map (λ (p : Pool). p.spec) s.pools) (queued s) s

abbrev pub expire_roots : Clock → Ledger → Ledger
expire_roots c s = record s { roots = update_where (root_expired c) (expire_root c) s.roots }

unfoldable pub end_orphans : Clock → Ledger → Ledger
unfolding end_each operation_ids
end_orphans c s =
    end_each c (operation_ids (is_orphan s) s) OperationState.cancelled root_terminal s

unfoldable pub close_expired : Clock → Ledger → Ledger
unfolding end_overdue end_unservable end_orphans
close_expired c s = end_orphans c (expire_roots c (end_unservable c (end_overdue c s)))

-- The transaction of `reconcile_expired`, with the number of attempts that it has expired
unfoldable pub reconcile_rows : Clock → Ledger → Result (Ledger × ℕ)
unfolding expire_directs operation_ids end_each is_expired each_row expire_attempt joined_rows
    close_expired
reconcile_rows c s = do
  let (s₁, direct) = expire_directs c s
  let s₂ =
      end_each c (operation_ids (is_late c) s₁) OperationState.failed operation_deadline_exceeded s₁
  let attempts = select (is_expired c s₂) (joined_rows s₂)
  s₃ ← each_row (expire_attempt c) attempts s₂
  ok (close_expired c s₃, length attempts + direct)

-- `reconcile_expired`: the transaction, and then the lost results, each on its own. `later` is the
-- clock of the query for them.
unfoldable pub reconcile_expired : Clock → Clock → (ℕ → Clock × Bool) → Ledger → Result (Ledger × ℕ)
unfolding reconcile_rows settle_lost_results
reconcile_expired c later seen s = do
  (t, expired) ← reconcile_rows c s
  let (u, settled) = settle_lost_results later seen t
  ok (u, expired + settled)
