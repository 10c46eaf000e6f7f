-- ===== src/Scheduler/Scenarios.antt =====
-- One pool of two transports and two requests.
use mta_runtime_intramind.Base.{ℕ, ◌≡◌, refl, true, none, some, List, [], ◌∷◌, arith}
use mta_runtime_intramind.Contracts.Operation.{Priority, qa, background}
use mta_runtime_intramind.Contracts.Pool.{PoolSpec, Resource, Kind}
use mta_runtime_intramind.Ledger.State.{healthy}
use mta_runtime_intramind.Scheduler.State.{
  DirectRequest, DirectReservation, PoolView, Scheduler, Now,
}
use mta_runtime_intramind.Scheduler.Direct.{direct_reservation, completed_response}
use mta_runtime_intramind.Table.{find}
use mta_runtime_intramind.Scheduler.Queue.{enqueue, enqueue_new}
use mta_runtime_intramind.Scheduler.Trying.{refused, inference_capacity, try_turn, try_reserve}
use mta_runtime_intramind.Scheduler.Refusing.{IsForgotten, LeavesNothing, try_reserve-LeavesNothing}
use mta_runtime_intramind.Scheduler.Turns.{
  Call, enqueues, reserves, marks_send, finishes, tries, run,
}
use mta_runtime_intramind.Scheduler.Histories.{run-FitsCapacity}
use mta_runtime_intramind.Scheduler.Reserving.{FitsCapacity}

abbrev pool_spec : PoolSpec
pool_spec = record {
  pool_id = 10;
  group_id = 11;
  engine_epoch = 1;
  profile_id = 1;
  model_profile = 3;
  model_revision = 1;
  hard_ceiling = 4;
  target = 2;
  transport_limit = 2;
  background_transport_limit = 1;
  valid_until = none;
  capabilities = [];
  resource = Resource.llm 4096;
}

abbrev view : PoolView
view = record {
  spec = pool_spec;
  epoch = 1;
  health = healthy;
  target = 2;
  group_id = 11;
  group_health = healthy;
  group_ceiling = 4;
}

abbrev request : ℕ → Priority → DirectRequest
request id class = record {
  request_id = id;
  tenant_id = 7;
  payload_digest = 1;
  model_profile = 3;
  model_revision = none;
  expected_engine_epoch = none;
  capacity_profile_id = 1;
  kind = Kind.llm;
  request_bound = 100;
  batch_size = 1;
  deadline = 5000;
  workload_class = class;
  dispatch_before = none;
}

abbrev idle : Scheduler
idle = record {
  endpoint_limit = 8;
  tenant_limit = 4;
  request_ttl = 100;
  control_ready = true;
  ready_by_pool = λ pool. some 0;
  pools = view ∷ [];
  waiters = [];
  queues = [];
  queue_counts = λ pool. 0;
  tenant_counts = λ pool tenant. 0;
  permits = [];
  request_identity = [];
}

abbrev now : Now
now = record { wall = 1000; monotonic = 50 }

abbrev held : DirectReservation
held = direct_reservation 30 (request 1 qa) 10 20 view 0

abbrev calls : List (Now × Call)
calls =
    (now, enqueues (request 1 qa) 10 20)
    ∷ (now, enqueues (request 2 background) 10 20)
    ∷ (now, reserves 30 (request 1 qa) 10 20 none)
    ∷ (now, reserves 31 (request 2 background) 10 20 none)
    ∷ (now, marks_send held)
    ∷ (now, finishes held completed_response)
    ∷ (now, tries 32 (request 3 qa) 10 20)
    ∷ []

idle-FitsCapacity : FitsCapacity idle
idle-FitsCapacity = record {
  endpoint = λ id v e. omega arith;
  background = λ id v e llm. omega arith;
}

run-FitsCapacity_example : FitsCapacity (run calls idle)
run-FitsCapacity_example = run-FitsCapacity calls idle idle-FitsCapacity

-- A scheduler that lets no request wait.
abbrev full : Scheduler
full = record idle { endpoint_limit = 0 }

is_refused : (try_reserve now 31 (request 2 background) 10 20 full).1 ≡ refused inference_capacity
unfolding try_reserve try_turn enqueue enqueue_new find
is_refused = refl

full-IsForgotten : IsForgotten 10 2 full
unfolding find
full-IsForgotten = record { waiter = refl; known = refl; entry = refl }

try_reserve-LeavesNothing_example :
    LeavesNothing 10 2 full (try_reserve now 31 (request 2 background) 10 20 full)
try_reserve-LeavesNothing_example =
    try_reserve-LeavesNothing now 31 (request 2 background) 10 20 full full-IsForgotten
