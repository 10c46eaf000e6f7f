-- ===== src/Ledger/State.antt =====
-- The tables of the ledger: schema.sql and the migrations after it.
use mta_runtime_intramind.Base.{ℕ, ◌==◌, Bool, true, false, Option, List, ℕ_discrete}
use mta_runtime_intramind.Contracts.Operation.{
  Artifact, BudgetUnit, RootSpec, OperationSpec, Priority,
}
use mta_runtime_intramind.Contracts.Pool.{PoolSpec}

-- contracts.OperationState
pub data OperationState : Type 0 where
  ready executing reconciling retry_wait succeeded failed cancelled : OperationState

pub data RootState : Type 0 where
  running succeeded partial failed cancelled : RootState

pub data AttemptState : Type 0 where
  reserved send_intent active backend_finished : AttemptState
  result_committed failed failed_not_sent unknown : AttemptState

-- runtime_groups and runtime_pools
pub data Health : Type 0 where
  healthy degraded unavailable : Health

-- Reasons and error classes that the store writes itself, and those that its caller gives.
pub data Reason : Type 0 where
  user_cancelled root_terminal operation_deadline_exceeded deadline_exceeded : Reason
  root_budget root_budget_exhausted resource_budget_missing max_attempts root_attempt_budget :
      Reason
  observed_usage_exceeds_budget root_finished unknown_compute_or_result : Reason
  lease_expired_before_send lease_expired_after_send engine_epoch_stopped : Reason
  engine_idle_verified engine_recovery result_lost_after_backend_finished : Reason
  capacity_profile_changed model_revision_changed : Reason
  context_exceeds_all_pools request_exceeds_all_pools : Reason
  buffer_dispatch_deadline_exceeded : Reason
  given : ℕ → Reason

-- The columns budget_limit, reserved and spent.
pub record Budget : Type 0 where
  pub limit : ℕ
  pub reserved : ℕ
  pub spent : ℕ

pub record Root : Type 0 where
  pub root_id : ℕ
  pub tenant_id : ℕ
  pub spec : RootSpec
  pub state : RootState
  pub deadline : ℕ
  pub budget : Budget
  pub attempts : ℕ
  pub operation_count : ℕ
  pub last_served : ℕ
  pub priority : Priority
  pub cancel_requested : Bool
  pub result : Option Artifact
  pub terminal_reason : Option Reason
  pub finished_at : Option ℕ

-- runtime_resource_budgets
pub record ResourceBudget : Type 0 where
  pub root_id : ℕ
  pub unit : BudgetUnit
  pub budget : Budget

pub record Group : Type 0 where
  pub group_id : ℕ
  pub hard_ceiling : ℕ
  pub health : Health

pub record Pool : Type 0 where
  pub pool_id : ℕ
  pub group_id : ℕ
  pub spec : PoolSpec
  pub engine_epoch : ℕ
  pub envelope_version : ℕ
  pub target : ℕ
  pub hard_ceiling : ℕ
  pub context_limit : ℕ
  pub model_profile : ℕ
  pub health : Health
  pub valid_until : Option ℕ
  pub quiesce_token : Option ℕ

pub record Operation : Type 0 where
  pub operation_id : ℕ
  pub root_id : ℕ
  pub tenant_id : ℕ
  pub spec : OperationSpec
  pub state : OperationState
  pub attempts : ℕ
  pub active_attempt : Option ℕ
  pub result : Option Artifact
  pub wait_reason : Option Reason
  pub retry_at : Option ℕ
  pub created_at : ℕ

pub record Attempt : Type 0 where
  pub attempt_id : ℕ
  pub operation_id : ℕ
  pub pool_id : ℕ
  pub engine_epoch : ℕ
  pub attempt_number : ℕ
  pub owner_id : ℕ
  pub lease_epoch : ℕ
  pub lease_expires_at : ℕ
  pub state : AttemptState
  pub compute_held : Bool
  pub budget_held : Bool
  pub budget_bound : ℕ
  pub budget_unit : BudgetUnit
  pub usage : Option ℕ
  pub usage_estimated : Option Bool
  pub error_class : Option Reason
  pub send_intent_at : Option ℕ
  pub backend_finished_at : Option ℕ
  pub result_committed_at : Option ℕ
  pub unknown_at : Option ℕ
  pub created_at : ℕ

pub data Disposition : Type 0 where
  result late_cancelled late_terminal : Disposition

-- runtime_artifacts
pub record ArtifactRow : Type 0 where
  pub tenant_id : ℕ
  pub operation_id : ℕ
  pub attempt_id : ℕ
  pub manifest : Artifact
  pub disposition : Disposition

-- The event ids `start:{run}`, `cancel:{run}` and `complete:{binding}`, which carry the kind.
pub data EventId : Type 0 where
  start_workflow cancel_workflow complete_activity : ℕ → EventId

-- runtime_outbox
pub record Event : Type 0 where
  pub event_id : EventId
  pub aggregate_id : ℕ
  pub available_at : ℕ
  pub owner_id : Option ℕ
  pub lease_expires_at : Option ℕ
  pub delivered_at : Option ℕ
  pub deliveries : ℕ
  pub created_at : ℕ

-- runtime_completion_bindings
pub record Binding : Type 0 where
  pub binding_id : ℕ
  pub operation_id : ℕ
  pub task_token : ℕ

-- runtime_owners
pub record Owner : Type 0 where
  pub owner_id : ℕ
  pub boot_generation : ℕ
  pub lease_expires_at : ℕ

-- runtime_controller_updates
pub record ControllerUpdate : Type 0 where
  pub pool_id : ℕ
  pub envelope_version : ℕ
  pub target : ℕ
  pub reason : ℕ

pub data InputKey : Type 0 where
  configuration : InputKey
  other_key : ℕ → InputKey

pub record InputEntry : Type 0 where
  pub key : InputKey
  pub value : ℕ

-- The specification of a run, a JSON object: its entry "input", which is an object too, and the
-- others, which are only compared. Keys are sorted, as `encode` writes them.
pub record RunSpec : Type 0 where
  pub input : List InputEntry
  pub others : ℕ

pub RunSpec-discrete : Discrete RunSpec
RunSpec-discrete = hlevel ℕ_discrete

-- runtime_submissions
pub record Submission : Type 0 where
  pub run_id : ℕ
  pub tenant_id : ℕ
  pub submission_key : ℕ
  pub input_digest : ℕ
  pub spec : RunSpec

pub data DirectState : Type 0 where
  reserved send_intent unknown finished failed_not_sent failed failed_recoverable : DirectState

-- runtime_direct_attempts, whose rows an earlier release wrote
pub record DirectAttempt : Type 0 where
  pub attempt_id : ℕ
  pub pool_id : ℕ
  pub engine_epoch : ℕ
  pub owner_id : ℕ
  pub state : DirectState
  pub compute_held : Bool
  pub lease_expires_at : ℕ
  pub deadline : ℕ
  pub backend_finished_at : Option ℕ
  pub unknown_at : Option ℕ
  pub error_class : Option Reason
  pub created_at : ℕ

-- runtime_direct_waiters
pub record DirectWaiter : Type 0 where
  pub request_id : ℕ
  pub owner_id : ℕ
  pub deadline : ℕ

pub record Ledger : Type 0 where
  -- runtime_authority
  pub max_roots : ℕ
  pub max_pending : ℕ
  pub roots : List Root
  pub budgets : List ResourceBudget
  pub groups : List Group
  pub pools : List Pool
  pub operations : List Operation
  pub attempts : List Attempt
  pub artifacts : List ArtifactRow
  pub outbox : List Event
  pub bindings : List Binding
  pub owners : List Owner
  pub controller_updates : List ControllerUpdate
  pub submissions : List Submission
  pub direct_attempts : List DirectAttempt
  pub direct_waiters : List DirectWaiter

-- The clocks that a transaction reads: PostgreSQL's now(), fixed at its start, clock_timestamp(),
-- and the process's datetime.now(UTC).
pub record Clock : Type 0 where
  pub transaction : ℕ
  pub database : ℕ
  pub process : ℕ

-- `state IN ('SUCCEEDED','FAILED','CANCELLED')`
abbrev pub is_terminal : OperationState → Bool
is_terminal OperationState.succeeded = true
is_terminal OperationState.failed = true
is_terminal OperationState.cancelled = true
is_terminal _ = false

-- `state IN ('RESULT_COMMITTED','FAILED','FAILED_NOT_SENT')`
abbrev pub is_settled : AttemptState → Bool
is_settled result_committed = true
is_settled AttemptState.failed = true
is_settled failed_not_sent = true
is_settled _ = false

abbrev pub is_running : RootState → Bool
is_running running = true
is_running _ = false

abbrev pub is_reserved : AttemptState → Bool
is_reserved AttemptState.reserved = true
is_reserved _ = false

abbrev pub is_executing : OperationState → Bool
is_executing executing = true
is_executing _ = false

-- Units are compared as their texts are: one number for each.
unfoldable pub unit_code : BudgetUnit → ℕ
unit_code BudgetUnit.tokens = 0
unit_code BudgetUnit.speech_characters = 1
unit_code BudgetUnit.embedding_characters = 2

abbrev pub same_unit : BudgetUnit → BudgetUnit → Bool
same_unit a b = unit_code a == unit_code b

-- The keys of the tables.
abbrev pub root_key : Root → ℕ
root_key r = r.root_id

abbrev pub operation_key : Operation → ℕ
operation_key o = o.operation_id

abbrev pub attempt_key : Attempt → ℕ
attempt_key a = a.attempt_id

abbrev pub pool_key : Pool → ℕ
pool_key p = p.pool_id

abbrev pub owner_key : Owner → ℕ
owner_key o = o.owner_id

abbrev pub binding_key : Binding → ℕ
binding_key b = b.binding_id
