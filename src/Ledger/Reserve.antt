-- ===== src/Ledger/Reserve.antt =====
-- store.py, `reserve_next`: the loop over the candidates, and the grant.
use mta_runtime_intramind.Base.{
  ℕ, ◌+◌, max, min, Bool, true, false, not, ◌&&◌, ◌||◌, Option, none, some, List, [], ◌∷◌, ltb, leb,
  ◌==◌, if◌then◌else◌, Result, ok, err, integrity_error,
}
use mta_runtime_intramind.Contracts.Operation.{budget_unit, budget_bound}
use mta_runtime_intramind.Contracts.Pool.{request_limit}
use mta_runtime_intramind.Contracts.Workload.{root_workload}
use mta_runtime_intramind.Table.{find, update}
use mta_runtime_intramind.Ledger.State.{
  Ledger, Clock, Root, Operation, OperationState, Attempt, AttemptState, Pool, Group, Health,
  healthy, Budget, Reason, max_attempts, root_attempt_budget, root_budget, root_budget_exhausted,
  resource_budget_missing, is_running, root_key, operation_key, attempt_key, pool_key,
}
use mta_runtime_intramind.Ledger.Budgets.{budget_of}
use mta_runtime_intramind.Ledger.Events.{terminal, expire_operation}
use mta_runtime_intramind.Ledger.Attempts.{Reservation, deadline_or}
use mta_runtime_intramind.Ledger.Selection.{Candidate, candidates, is_waiting, due, matches, subset}

-- `COALESCE(max(attempt_number),0)` of the operation
unfoldable pub last_number : ℕ → List Attempt → ℕ
last_number operation [] = 0
last_number operation (a ∷ rest) =
    let n = last_number operation rest in
    if a.operation_id == operation then max a.attempt_number n else n

-- What one reservation is made with: the caller's identity, the lease and the UUID drawn for it.
pub record Draw : Type 0 where
  pub owner_id : ℕ
  pub lease : ℕ
  pub attempt_id : ℕ

-- The row that a reservation inserts: it holds neither compute nor budget until it is sent.
abbrev pub new_attempt : Clock → Pool → Draw → ℕ → Operation → Attempt
new_attempt c pool draw number o = record {
  attempt_id = draw.attempt_id;
  operation_id = o.operation_id;
  pool_id = pool.pool_id;
  engine_epoch = pool.engine_epoch;
  attempt_number = number;
  owner_id = draw.owner_id;
  lease_epoch = number;
  lease_expires_at = c.process + draw.lease;
  state = AttemptState.reserved;
  compute_held = false;
  budget_held = false;
  budget_bound = budget_bound o.spec;
  budget_unit = budget_unit o.spec;
  usage = none;
  usage_estimated = none;
  error_class = none;
  send_intent_at = none;
  backend_finished_at = none;
  result_committed_at = none;
  unknown_at = none;
  created_at = c.database;
}

abbrev pub execute : ℕ → Operation → Operation
execute attempt o = record o {
  state = OperationState.executing;
  active_attempt = some attempt;
  wait_reason = none;
}

abbrev pub serve : ℕ → Root → Root
serve clock r = record r { last_served = clock }

abbrev pub wait_for : Reason → Operation → Operation
wait_for reason o = record o { wait_reason = some reason }

abbrev pub reservation : Clock → Pool → Draw → ℕ → Operation → Root → Reservation
reservation c pool draw number o r = record {
  attempt_id = draw.attempt_id;
  operation = o.spec;
  pool_id = pool.pool_id;
  engine_epoch = pool.engine_epoch;
  model_revision = pool.spec.model_revision;
  owner_id = draw.owner_id;
  lease_epoch = number;
  sent_attempts = o.attempts;
  attempt_deadline =
      min (min r.deadline (deadline_or o.spec.deadline r.deadline))
        (c.database + o.spec.attempt_timeout);
  workload_class = root_workload r.priority;
}

-- A candidate is passed over, perhaps after an UPDATE, or it is granted.
pub data Turn : Type 0 where
  pass : Ledger → Turn
  granted : Ledger → Reservation → Turn

-- The ledger after a grant.
abbrev pub grant_ledger : Clock → Pool → Draw → ℕ → Operation → Ledger → Ledger
grant_ledger c pool draw number o s = record s {
  roots = update root_key o.root_id (serve c.process) s.roots;
  operations = update operation_key o.operation_id (execute draw.attempt_id) s.operations;
  attempts = new_attempt c pool draw number o ∷ s.attempts;
}

-- The INSERT under the drawn UUID: an attempt that has it already is a unique violation.
unfoldable pub insert_grant :
    Clock → Pool → Draw → ℕ → Operation → Root → Ledger → Option Attempt → Result Turn
insert_grant c pool draw number o r s (some used) = err integrity_error
insert_grant c pool draw number o r s none =
    ok (granted (grant_ledger c pool draw number o s) (reservation c pool draw number o r))

unfoldable pub grant : Clock → Pool → Draw → Operation → Root → Ledger → Result Turn
unfolding last_number insert_grant
grant c pool draw o r s =
    insert_grant c pool draw (last_number o.operation_id s.attempts + 1) o r s
      (find attempt_key draw.attempt_id s.attempts)

-- Why the operation can never be sent again: the first that applies.
unfoldable pub exhausted : Operation → Root → Budget → Option Reason
exhausted o r b =
    if leb o.spec.max_attempts o.attempts
    then some max_attempts
    else if leb r.spec.max_attempts r.attempts
    then some root_attempt_budget
    else if ltb b.limit (b.spent + budget_bound o.spec)
    then some root_budget_exhausted
    else none

abbrev pub end_candidate : Clock → Operation → Reason → Ledger → Turn
end_candidate c o reason s = pass (terminal c o.operation_id OperationState.failed reason s)

-- A budget that is only reserved may come back, so the candidate waits.
abbrev pub await_budget : Operation → Ledger → Turn
await_budget o s = pass (record s {
  operations = update operation_key o.operation_id (wait_for root_budget) s.operations;
})

unfoldable pub unless_exhausted :
    Clock → Pool → Draw → Operation → Root → Ledger → Budget → Option Reason → Result Turn
unfolding grant terminal
unless_exhausted c pool draw o r s b (some reason) = ok (end_candidate c o reason s)
unless_exhausted c pool draw o r s b none =
    if ltb b.limit (b.spent + b.reserved + budget_bound o.spec)
    then ok (await_budget o s)
    else grant c pool draw o r s

unfoldable pub within_budget :
    Clock → Pool → Draw → Operation → Root → Ledger → Option Budget → Result Turn
unfolding exhausted unless_exhausted
within_budget c pool draw o r s none = ok (end_candidate c o resource_budget_missing s)
within_budget c pool draw o r s (some b) = unless_exhausted c pool draw o r s b (exhausted o r b)

-- The candidate against the budget of its root.
unfoldable pub against_budget : Clock → Pool → Draw → Operation → Root → Ledger → Result Turn
unfolding within_budget
against_budget c pool draw o r s =
    within_budget c pool draw o r s (budget_of s o.root_id (budget_unit o.spec))

abbrev pub root_closed : Clock → Root → Bool
root_closed c r = not (is_running r.state) || r.cancel_requested || leb r.deadline c.process

-- The candidate's rows are there; an expired operation ends, and a pool that does not fit passes.
unfoldable pub consider_rows : Clock → Pool → Draw → Operation → Root → Ledger → Result Turn
unfolding against_budget expire_operation
consider_rows c pool draw o r s =
    let expiry = expire_operation c o.spec c.database s in
    if root_closed c r || not (is_waiting o.state && due o.retry_at c.process)
    then ok (pass s)
    else if expiry.1
    then ok (pass expiry.0)
    else if not (matches o.spec.capacity_profile_id pool.spec.profile_id)
        || not (subset o.spec.required_capabilities pool.spec.capabilities)
        || ltb (request_limit pool.spec.resource) (budget_bound o.spec)
    then ok (pass s)
    else against_budget c pool draw o r s

unfoldable pub consider_root : Clock → Pool → Draw → Operation → Ledger → Option Root → Result Turn
unfolding consider_rows
consider_root c pool draw o s none = ok (pass s)
consider_root c pool draw o s (some r) = consider_rows c pool draw o r s

unfoldable pub consider_row : Clock → Pool → Draw → Ledger → Option Operation → Result Turn
unfolding consider_root
consider_row c pool draw s none = ok (pass s)
consider_row c pool draw s (some o) =
    consider_root c pool draw o s (find root_key o.root_id s.roots)

-- One candidate: its root and its own row are read again under their locks. A row's specification,
-- root and priority are never updated, so reading them again or keeping the scan's is the same.
unfoldable pub consider : Clock → Pool → Draw → ℕ → Ledger → Result Turn
unfolding consider_row
consider c pool draw id s = consider_row c pool draw s (find operation_key id s.operations)

-- The loop over the candidates.
unfoldable pub consider_each :
    Clock → Pool → Draw → List Candidate → Ledger → Result (Ledger × Option Reservation)
consider_each c pool draw [] s = ok (s, none)
consider_each c pool draw (x ∷ xs) s = elim (consider c pool draw x.operation_id s) [
  | err e ↦ err e
  | ok (granted s' res) ↦ ok (s', some res)
  | ok (pass s') ↦ consider_each c pool draw xs s'
]

abbrev pub is_healthy : Health → Bool
is_healthy healthy = true
is_healthy _ = false

abbrev pub group_key : Group → ℕ
group_key g = g.group_id

abbrev pub group_healthy : Option Group → Bool
group_healthy none = false
group_healthy (some g) = is_healthy g.health

abbrev pub can_reserve : Pool → Ledger → Bool
can_reserve pool s =
    is_healthy pool.health
    && not (pool.target == 0)
    && group_healthy (find group_key pool.group_id s.groups)

unfoldable pub reserve_from :
    Clock → Draw → Ledger → Option Pool → Result (Ledger × Option Reservation)
unfolding consider_each candidates
reserve_from c draw s none = ok (s, none)
reserve_from c draw s (some pool) =
    let found = consider_each c pool draw (candidates c pool s) s in
    if can_reserve pool s then found else ok (s, none)

-- `reserve_next`
unfoldable pub reserve_next : Clock → ℕ → Draw → Ledger → Result (Ledger × Option Reservation)
unfolding reserve_from
reserve_next c pool_id draw s = reserve_from c draw s (find pool_key pool_id s.pools)
