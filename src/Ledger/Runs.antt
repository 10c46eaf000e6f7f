-- ===== src/Ledger/Runs.antt =====
-- store.py: roots and the operations that a workflow submits: `_root`, `submit_operation`,
-- `bind_completion`, `cancel` and `finish_run`.
use mta_runtime_intramind.Base.{
  ℕ, ◌+◌, Bool, true, false, not, ◌&&◌, ◌||◌, Option, none, some, List, [], ◌∷◌, ltb, leb, ◌==◌,
  if◌then◌else◌, decides, count, Result, ok, err, ◌>>=◌, ◌>>◌, or_raise, raise_if, guard,
  runtime_conflict, admission_denied, not_found, value_error, root_identity_conflict,
  root_backlog_full, root_deadline_expired, root_not_eligible, operation_identity_conflict,
  no_accepted_budget, lifetime_operation_limit, materialization_limit, missing_root,
  missing_operation, missing_payload, missing_result, cancelled_with_result, invalid_terminal_state,
  partial_without_result, terminal_result_immutable, pending_operations,
}
use mta_runtime_intramind.Contracts.Operation.{
  Artifact, BudgetUnit, tokens, speech_characters, embedding_characters, RootSpec, OperationSpec,
  budget_unit, RootSpec-discrete, OperationSpec-discrete, Artifact-discrete,
}
use mta_runtime_intramind.Table.{find, update}
use mta_runtime_intramind.Ledger.State.{
  Ledger, Clock, Root, RootState, ResourceBudget, Operation, OperationState, Binding, Reason,
  cancel_workflow, user_cancelled, deadline_exceeded, root_finished, is_terminal, is_running,
  root_key, operation_key, binding_key,
}
use mta_runtime_intramind.Ledger.Events.{
  event, completion_events, terminal, expire_operation, expired,
}
use mta_runtime_intramind.Ledger.Results.{in_tenant}

abbrev pub new_root : RootSpec → Root
new_root spec = record {
  root_id = spec.root_id;
  tenant_id = spec.tenant_id;
  spec = spec;
  state = RootState.running;
  deadline = spec.deadline;
  budget = record { limit = spec.budget_limit; reserved = 0; spent = 0 };
  attempts = 0;
  operation_count = 0;
  last_served = 0;
  priority = spec.priority;
  cancel_requested = false;
  result = none;
  terminal_reason = none;
  finished_at = none;
}

abbrev pub new_resource : ℕ → BudgetUnit → Option ℕ → List ResourceBudget → List ResourceBudget
new_resource root unit none bs = bs
new_resource root unit (some limit) bs =
    record {
      root_id = root;
      unit = unit;
      budget = record { limit = limit; reserved = 0; spent = 0 };
    }
    ∷ bs

-- `_root`, which is `create_root`: a root is admitted once, under the global quota.
unfoldable pub create_root : Clock → RootSpec → Ledger → Result Ledger
create_root c spec s = elim (find root_key spec.root_id s.roots) [
  | some old ↦ (do
    guard (decides (RootSpec-discrete old.spec spec)) (runtime_conflict root_identity_conflict)
    ok s)
  | none ↦ (do
    raise_if (leb s.max_roots (count (λ r. is_running r.state) s.roots))
        (admission_denied root_backlog_full true)
    raise_if (leb spec.deadline c.process) (admission_denied root_deadline_expired false)
    ok (record s {
      roots = new_root spec ∷ s.roots;
      budgets =
          new_resource spec.root_id embedding_characters spec.embedding_budget
            (new_resource spec.root_id speech_characters spec.speech_budget s.budgets);
    }))
]

abbrev pub new_operation : Clock → OperationSpec → Operation
new_operation c spec = record {
  operation_id = spec.operation_id;
  root_id = spec.root_id;
  tenant_id = spec.tenant_id;
  spec = spec;
  state = OperationState.ready;
  attempts = 0;
  active_attempt = none;
  result = none;
  wait_reason = none;
  retry_at = none;
  created_at = c.transaction;
}

abbrev pub is_some {ℓ} : {A : Type ℓ} → Option A → Bool
is_some none = false
is_some (some _) = true

-- `budget_unit != "tokens" and budget_unit not in root["spec"]["resource_budgets"]`, negated
abbrev pub accepts_unit : RootSpec → BudgetUnit → Bool
accepts_unit spec tokens = true
accepts_unit spec speech_characters = is_some spec.speech_budget
accepts_unit spec embedding_characters = is_some spec.embedding_budget

abbrev pub pending_of_root : ℕ → List Operation → ℕ
pending_of_root root = count (λ o. not (is_terminal o.state) && o.root_id == root)

abbrev pub pending_of_model : ℕ → List Operation → ℕ
pending_of_model model = count (λ o. not (is_terminal o.state) && o.spec.model_profile == model)

abbrev pub count_operation : Root → Root
count_operation r = record r { operation_count = r.operation_count + 1 }

-- `submit_operation` of an operation that is not in the ledger; clock_timestamp() is read once
-- with the root and once more, `at`, with the inserted row
unfoldable pub submit_new : Clock → ℕ → OperationSpec → Ledger → Result Ledger
unfolding expire_operation
submit_new c at spec s = do
  root ← or_raise (find root_key spec.root_id s.roots) (not_found missing_root)
  guard (root.tenant_id == spec.tenant_id) (not_found missing_root)
  raise_if (root.cancel_requested || not (is_running root.state) || leb root.deadline c.process)
      (admission_denied root_not_eligible false)
  guard (accepts_unit root.spec (budget_unit spec)) (admission_denied no_accepted_budget false)
  raise_if (leb root.spec.max_operations root.operation_count)
      (admission_denied lifetime_operation_limit false)
  raise_if
      (not (expired spec.deadline c.database)
        && (leb root.spec.max_pending (pending_of_root spec.root_id s.operations)
            || leb s.max_pending (pending_of_model spec.model_profile s.operations)))
      (admission_denied materialization_limit true)
  ok
      (expire_operation c spec at (record s {
        operations = new_operation c spec ∷ s.operations;
        roots = update root_key spec.root_id count_operation s.roots;
      })).0

-- `submit_operation`
unfoldable pub submit_operation : (ℕ → List ℕ) → Clock → ℕ → OperationSpec → Ledger → Result Ledger
unfolding submit_new
submit_operation sha256 c at spec s = do
  guard (in_tenant sha256 spec.tenant_id spec.payload) (not_found missing_payload)
  elim (find operation_key spec.operation_id s.operations) [
    | some old ↦ (do
      guard (decides (OperationSpec-discrete old.spec spec))
          (runtime_conflict operation_identity_conflict)
      ok s)
    | none ↦ submit_new c at spec s
  ]

-- `bind_completion`; `binding` is the digest of the task token
unfoldable pub bind_completion : Clock → ℕ → ℕ → ℕ → ℕ → Ledger → Result Ledger
unfolding completion_events
bind_completion c operation tenant binding token s = do
  o ← or_raise (find operation_key operation s.operations) (not_found missing_operation)
  guard (o.tenant_id == tenant) (not_found missing_operation)
  let row : Binding = record { binding_id = binding; operation_id = operation; task_token = token }
  let bound : Ledger = elim (find binding_key binding s.bindings) [
    | none ↦ record s { bindings = row ∷ s.bindings }
    | some old ↦ s
  ]
  ok (if is_terminal o.state then completion_events c operation bound else bound)

-- The operations of a root that have not ended, and the loop that ends each of them.
unfoldable pub pending_ids : ℕ → List Operation → List ℕ
pending_ids root [] = []
pending_ids root (o ∷ os) =
    let rest = pending_ids root os in
    if o.root_id == root && not (is_terminal o.state) then o.operation_id ∷ rest else rest

unfoldable pub end_each : Clock → List ℕ → OperationState → Reason → Ledger → Ledger
unfolding terminal
end_each c [] state reason s = s
end_each c (id ∷ ids) state reason s = end_each c ids state reason (terminal c id state reason s)

abbrev pub cancel_root : Clock → Root → Root
cancel_root c r = record r {
  cancel_requested = true;
  state = RootState.cancelled;
  terminal_reason = some user_cancelled;
  finished_at = elim r.finished_at [ none ↦ some c.transaction | some t ↦ some t ];
}

-- `state in ("SUCCEEDED", "PARTIAL", "FAILED")`
abbrev pub is_finished : RootState → Bool
is_finished RootState.succeeded = true
is_finished RootState.partial = true
is_finished RootState.failed = true
is_finished _ = false

-- `cancel`
unfoldable pub cancel : Clock → ℕ → ℕ → Ledger → Result Ledger
unfolding end_each event
cancel c root tenant s = do
  r ← or_raise (find root_key root s.roots) (not_found missing_root)
  guard (r.tenant_id == tenant) (not_found missing_root)
  let s' = record s { roots = update root_key root (cancel_root c) s.roots }
  ok (
      if is_finished r.state
      then s
      else event c (cancel_workflow root) root
          (end_each c (pending_ids root s.operations) OperationState.cancelled user_cancelled s'))

-- What `finish_run` writes into the root.
abbrev pub finish_root : ℕ → RootState → Option Artifact → Option Reason → Root → Root
finish_root at state result reason r = record r {
  state = state;
  result = result;
  terminal_reason = reason;
  finished_at = some at;
}

abbrev pub same_result : Option Artifact → Option Artifact → Bool
same_result none none = true
same_result (some a) (some b) = decides (Artifact-discrete a b)
same_result _ _ = false

abbrev pub same_state : RootState → RootState → Bool
same_state RootState.running RootState.running = true
same_state RootState.succeeded RootState.succeeded = true
same_state RootState.partial RootState.partial = true
same_state RootState.failed RootState.failed = true
same_state RootState.cancelled RootState.cancelled = true
same_state _ _ = false

abbrev pub is_succeeded : RootState → Bool
is_succeeded RootState.succeeded = true
is_succeeded _ = false

abbrev pub reason_or : Option Reason → Reason → Reason
reason_or none default = default
reason_or (some r) default = r

abbrev pub result_in_tenant : (ℕ → List ℕ) → ℕ → Option Artifact → Bool
result_in_tenant sha256 tenant none = true
result_in_tenant sha256 tenant (some ref) = in_tenant sha256 tenant ref

-- The UPDATE at the actual transition, with the clock sampled once, and the pending branches.
unfoldable pub close_root :
    Clock → ℕ → ℕ → RootState → Option Artifact → Option Reason → Ledger → Ledger
unfolding end_each
close_root c at root state result reason s =
    let s' = record s {
      roots = update root_key root (finish_root at state result reason) s.roots;
    } in
    if is_succeeded state
    then s'
    else end_each c (pending_ids root s.operations) OperationState.cancelled
        (reason_or reason root_finished) s'

-- The deadline wins over what the caller reports, by the clock read at `at`.
unfoldable pub finish_running :
    Clock → ℕ → Root → RootState → Option Artifact → Option Reason → Ledger → Result Ledger
unfolding close_root
finish_running c at r state result reason s =
    if leb r.deadline c.database
    then ok (close_root c at r.root_id RootState.failed none (some deadline_exceeded) s)
    else (do
      raise_if (is_succeeded state && ltb 0 (pending_of_root r.root_id s.operations))
          (runtime_conflict pending_operations)
      ok (
          if leb r.deadline at
          then close_root c at r.root_id RootState.failed none (some deadline_exceeded) s
          else close_root c at r.root_id state result reason s))

-- `finish_run` for the states that it accepts besides CANCELLED
unfoldable pub finish_open :
    (ℕ → List ℕ)
    → Clock
    → ℕ
    → ℕ
    → ℕ
    → RootState
    → Option Artifact
    → Option Reason
    → Ledger
    → Result Ledger
unfolding finish_running
finish_open sha256 c at root tenant state result reason s = do
  guard (result_in_tenant sha256 tenant result) (not_found missing_result)
  raise_if (same_state state RootState.partial && not (is_some result && is_some reason))
      (value_error partial_without_result)
  r ← or_raise (find root_key root s.roots) (not_found missing_root)
  guard (r.tenant_id == tenant) (not_found missing_root)
  if is_running r.state then finish_running c at r state result reason s else (do
    raise_if (same_state r.state state && not (same_result r.result result))
        (runtime_conflict terminal_result_immutable)
    ok s)

-- `finish_run`; a reason is a text that is not empty, and the clock at the transition, `at`, is read after `c`
unfoldable pub finish_run :
    (ℕ → List ℕ)
    → Clock
    → ℕ
    → ℕ
    → ℕ
    → RootState
    → Option Artifact
    → Option Reason
    → Ledger
    → Result Ledger
unfolding cancel finish_open
finish_run sha256 c at root tenant RootState.cancelled result reason s = do
  raise_if (is_some result) (value_error cancelled_with_result)
  cancel c root tenant s
finish_run sha256 c at root tenant RootState.running result reason s =
    err (value_error invalid_terminal_state)
finish_run sha256 c at root tenant state result reason s =
    finish_open sha256 c at root tenant state result reason s
