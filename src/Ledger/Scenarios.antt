-- ===== src/Ledger/Scenarios.antt =====
-- A ledger with one pool, one root and one operation, and the theorems of the ledger at work on it.
use mta_runtime_intramind.Base.{
  ℕ, ◌≡◌, refl, none, some, List, [], ◌∷◌, ◌++◌, err, OnOk, runtime_conflict,
  stale_attempt_ownership,
}
use mta_runtime_intramind.Contracts.Operation.{Artifact, RootSpec, OperationSpec, Demand, user_task}
use mta_runtime_intramind.Contracts.Pool.{PoolSpec, Resource}
use mta_runtime_intramind.Ledger.State.{
  Ledger, Clock, Root, RootState, Operation, Attempt, Pool, Group, Owner, healthy, given,
}
use mta_runtime_intramind.Table.{find}
use mta_runtime_intramind.Ledger.Attempts.{Reservation, Joined, join, mark_send}
use mta_runtime_intramind.Ledger.Reserve.{Draw, new_attempt, execute, reservation, reserve_next}
use mta_runtime_intramind.Ledger.Results.{tenant_prefix}
use mta_runtime_intramind.Ledger.Runs.{new_root, new_operation, finish_run}
use mta_runtime_intramind.Ledger.History.{
  Call, creates, submits, reserves, marks_send, finishes_compute, commits, cancels, perform, run,
  installed,
}
use mta_runtime_intramind.Ledger.Fencing.{stale_refused, IsCurrent}
use mta_runtime_intramind.Ledger.Charging.{IsWithinLimits, mark_send-IsWithinLimits}
use mta_runtime_intramind.Base.{arith, sym, ap, Option}
use mta_runtime_intramind.Ledger.Engine.{quiesce_engine}
use mta_runtime_intramind.Ledger.Quiescence.{IsQuiet, quiesce_engine-IsQuiet}
use mta_runtime_intramind.Ledger.Balance.Frame.{Frame}
use mta_runtime_intramind.Ledger.Balance.Closing.{finish_run-Frame}
use mta_runtime_intramind.Ledger.Progress.Steps.{Moves}
use mta_runtime_intramind.Ledger.Progress.Grants.{Reserved, reserve_next-Reserved}
use mta_runtime_intramind.Ledger.Progress.Histories.{run-Moves}

abbrev pub sha256 : ℕ → List ℕ
sha256 tenant = tenant ∷ []

abbrev pub clock : Clock
clock = record { transaction = 1000; database = 1000; process = 1000 }

abbrev pub root_spec : RootSpec
root_spec = record {
  root_id = 1;
  tenant_id = 7;
  deadline = 9000000;
  budget_limit = 100;
  speech_budget = none;
  embedding_budget = none;
  max_operations = 4;
  max_pending = 2;
  max_attempts = 3;
  priority = user_task;
}

abbrev pub payload : Artifact
payload = record {
  key = tenant_prefix sha256 7 ++ 42 ∷ [];
  sha256 = 5;
  size = 10;
  content_type = 1;
}

abbrev result : Artifact
result = record { key = tenant_prefix sha256 7 ++ 43 ∷ []; sha256 = 6; size = 11; content_type = 1 }

abbrev pub operation_spec : OperationSpec
operation_spec = record {
  operation_id = 2;
  root_id = 1;
  tenant_id = 7;
  payload = payload;
  model_profile = 3;
  expected_cost = 1;
  max_attempts = 2;
  attempt_timeout = 60000000;
  deadline = none;
  capacity_profile_id = none;
  required_capabilities = [];
  demand = Demand.llm 30 20;
}

abbrev pub pool_spec : PoolSpec
pool_spec = record {
  pool_id = 10;
  group_id = 11;
  engine_epoch = 1;
  profile_id = 1;
  model_profile = 3;
  model_revision = 1;
  hard_ceiling = 4;
  target = 2;
  transport_limit = 8;
  background_transport_limit = 4;
  valid_until = none;
  capabilities = [];
  resource = Resource.llm 4096;
}

abbrev pub group : Group
group = record { group_id = 11; hard_ceiling = 4; health = healthy }

abbrev pub pool : Pool
pool = record {
  pool_id = 10;
  group_id = 11;
  spec = pool_spec;
  engine_epoch = 1;
  envelope_version = 1;
  target = 2;
  hard_ceiling = 4;
  context_limit = 4096;
  model_profile = 3;
  health = healthy;
  valid_until = none;
  quiesce_token = none;
}

abbrev pub owner : Owner
owner = record { owner_id = 20; boot_generation = 1; lease_expires_at = 5000000 }

abbrev pub draw : Draw
draw = record { owner_id = 20; lease = 60000000; attempt_id = 30 }

abbrev pub empty_ledger : Ledger
empty_ledger = installed 10 10 (group ∷ []) (pool ∷ []) (owner ∷ [])

abbrev pub root_row : Root
root_row = new_root root_spec

abbrev pub operation_row : Operation
operation_row = new_operation clock operation_spec

abbrev pub attempt_row : Attempt
attempt_row = new_attempt clock pool draw 1 operation_row

abbrev pub held : Reservation
held = reservation clock pool draw 1 operation_row root_row

-- The operation is waiting, and then its attempt is reserved.
abbrev pub waiting_ledger : Ledger
waiting_ledger = record empty_ledger { roots = root_row ∷ []; operations = operation_row ∷ [] }

abbrev pub reserved_ledger : Ledger
reserved_ledger = record empty_ledger {
  roots = root_row ∷ [];
  operations = execute 30 operation_row ∷ [];
  attempts = attempt_row ∷ [];
}

abbrev joined : Joined
joined = record { attempt = attempt_row; operation = execute 30 operation_row; root = root_row }

joined_found : join reserved_ledger 30 ≡ some joined
unfolding join find installed
joined_found = refl

-- A whole life: from the root's creation to the committed result.
abbrev pub life : List (Clock × Call)
life =
    (clock, creates root_spec)
    ∷ (clock, submits 1000 operation_spec)
    ∷ (clock, reserves 10 draw)
    ∷ (clock, marks_send held)
    ∷ (clock, finishes_compute held)
    ∷ (clock, commits held result none [])
    ∷ (clock, cancels 1 7)
    ∷ []

-- A reservation of the same attempt under an older lease.
abbrev older : Reservation
older = record held { lease_epoch = 0 }

run-Moves_example : Moves reserved_ledger (run sha256 life reserved_ledger)
run-Moves_example = run-Moves sha256 life reserved_ledger

mark_send-IsWithinLimits_example :
    OnOk (IsWithinLimits 1 2 operation_spec) (mark_send clock held reserved_ledger)
mark_send-IsWithinLimits_example =
    mark_send-IsWithinLimits clock held reserved_ledger joined joined_found refl

reserve_next-Reserved_example :
    OnOk (Reserved clock 60000000 waiting_ledger) (reserve_next clock 10 draw waiting_ledger)
reserve_next-Reserved_example = reserve_next-Reserved clock 10 draw waiting_ledger

zero-one : (a b : ℕ) → a ≡ 1 → b ≡ 0 → a ≡ b → ⊥
zero-one a b first second e = omega (arith, first, second, e)

abbrev epoch_or_one : Option Attempt → ℕ
epoch_or_one none = 1
epoch_or_one (some a) = a.lease_epoch

older-not-IsCurrent : ¬ IsCurrent older reserved_ledger
unfolding find installed
older-not-IsCurrent w = zero-one w.attempt.lease_epoch 0 (epoch_of w.attempt w.found) refl w.epoch
  where
    epoch_of : (a : Attempt) → some attempt_row ≡ some a → a.lease_epoch ≡ 1
    epoch_of a e = ap (λ (o : Option Attempt). epoch_or_one o) (sym e)

stale_refused_example :
    perform sha256 clock (marks_send older) reserved_ledger
    ≡ err (runtime_conflict stale_attempt_ownership)
stale_refused_example =
    stale_refused sha256 clock (marks_send older) older reserved_ledger refl older-not-IsCurrent

finish_run-Frame_example :
    OnOk
      (Frame reserved_ledger)
      (finish_run sha256 clock 1000 1 7 RootState.failed none (some (given 1)) reserved_ledger)
finish_run-Frame_example =
    finish_run-Frame sha256 clock 1000 1 7 RootState.failed none (some (given 1)) reserved_ledger

quiesce_engine-IsQuiet_example : OnOk (IsQuiet 10) (quiesce_engine 10 1 (some 5) reserved_ledger)
quiesce_engine-IsQuiet_example = quiesce_engine-IsQuiet 10 1 (some 5) reserved_ledger
