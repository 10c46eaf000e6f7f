-- ===== src/Contracts/Operation.antt =====
-- contracts.py: artifacts, root specifications and the three kinds of inference operation.
use mta_runtime_intramind.Base.{ℕ, ◌+◌, ◌≤◌, ◌<◌, max, List, Option, ℕ_discrete, arith}

pub record Artifact : Type 0 where
  pub key : List ℕ
  pub sha256 : ℕ
  pub size : ℕ
  pub content_type : ℕ

pub data BudgetUnit : Type 0 where
  tokens speech_characters embedding_characters : BudgetUnit

-- `qa`, `user_task`, `background`, `maintenance`, and the retained `interactive`
pub data Priority : Type 0 where
  qa user_task background maintenance interactive : Priority

pub record RootSpec : Type 0 where
  pub root_id : ℕ
  pub tenant_id : ℕ
  pub deadline : ℕ
  pub budget_limit : ℕ
  -- `resource_budgets`: at most one limit for each of its two keys
  pub speech_budget : Option ℕ
  pub embedding_budget : Option ℕ
  pub max_operations : ℕ
  pub max_pending : ℕ
  pub max_attempts : ℕ
  pub priority : Priority

-- What OperationSpec, SpeechOperationSpec and EmbeddingOperationSpec add to _OperationSpec.
pub data Demand : Type 0 where
  -- input_tokens_bound, max_output_tokens
  llm : ℕ → ℕ → Demand
  -- characters_bound
  speech : ℕ → Demand
  -- model_revision, characters_bound, texts_count
  embedding : ℕ → ℕ → ℕ → Demand

pub record OperationSpec : Type 0 where
  pub operation_id : ℕ
  pub root_id : ℕ
  pub tenant_id : ℕ
  pub payload : Artifact
  pub model_profile : ℕ
  pub expected_cost : ℕ
  pub max_attempts : ℕ
  pub attempt_timeout : ℕ
  pub deadline : Option ℕ
  pub capacity_profile_id : Option ℕ
  -- sorted, as the serializer writes the set
  pub required_capabilities : List ℕ
  pub demand : Demand

abbrev pub unit_of : Demand → BudgetUnit
unit_of (llm i o) = tokens
unit_of (speech c) = speech_characters
unit_of (embedding r c t) = embedding_characters

-- An empty text still performs inference, so an embedding batch reserves at least one unit.
abbrev pub bound_of : Demand → ℕ
bound_of (llm i o) = i + o
bound_of (speech c) = c
bound_of (embedding r c t) = max 1 c

abbrev pub budget_unit : OperationSpec → BudgetUnit
budget_unit spec = unit_of spec.demand

abbrev pub budget_bound : OperationSpec → ℕ
budget_bound spec = bound_of spec.demand

pub Artifact-discrete : Discrete Artifact
Artifact-discrete = hlevel ℕ_discrete

pub OperationSpec-discrete : Discrete OperationSpec
OperationSpec-discrete = hlevel ℕ_discrete

pub RootSpec-discrete : Discrete RootSpec
RootSpec-discrete = hlevel ℕ_discrete

pub BudgetUnit-discrete : Discrete BudgetUnit
BudgetUnit-discrete = hlevel

abbrev pub ValidDemand : Demand → Type 0
ValidDemand (llm i o) = 0 < o
ValidDemand (speech c) = 0 < c
ValidDemand (embedding r c t) = 0 < t

-- The bounds that pydantic enforces on an operation before it reaches the ledger.
pub record IsValid (spec : OperationSpec) : Type 0 where
  pub costs : 0 < spec.expected_cost
  pub tries : (1 ≤ spec.max_attempts) × (spec.max_attempts ≤ 10)
  pub timeout : (0 < spec.attempt_timeout) × (spec.attempt_timeout ≤ 86400000000)
  pub demands : ValidDemand spec.demand

-- An accepted operation always reserves at least one unit of its budget.
pub budget_bound-pos : (spec : OperationSpec) → IsValid spec → 0 < budget_bound spec
budget_bound-pos spec v = bound_of-pos spec.demand v.demands
  where
    bound_of-pos : (d : Demand) → ValidDemand d → 0 < bound_of d
    bound_of-pos (llm i o) h = omega arith
    bound_of-pos (speech c) h = omega arith
    bound_of-pos (embedding r c t) h = omega arith
