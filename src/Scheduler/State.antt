-- ===== src/Scheduler/State.antt =====
-- memory_scheduler.py: `_Pool`, `_Waiter`, `_Permit`, the scheduler's dictionaries and `SlotCapacity`;
-- direct.py: the request and its reservation.
use mta_runtime_intramind.Base.{
  ℕ, min, Bool, false, not, ◌&&◌, Option, none, some, List, leb, ◌==◌, if◌then◌else◌, count,
  ℕ_discrete,
}
use mta_runtime_intramind.Contracts.Operation.{Priority}
use mta_runtime_intramind.Contracts.Pool.{PoolSpec, Kind, is_llm}
use mta_runtime_intramind.Contracts.Workload.{is_qa}
use mta_runtime_intramind.Table.{find}
use mta_runtime_intramind.Ledger.State.{Health}
use mta_runtime_intramind.Ledger.Reserve.{is_healthy}

pub record DirectRequest : Type 0 where
  pub request_id : ℕ
  pub tenant_id : ℕ
  pub payload_digest : ℕ
  pub model_profile : ℕ
  pub model_revision : Option ℕ
  pub expected_engine_epoch : Option ℕ
  pub capacity_profile_id : ℕ
  pub kind : Kind
  pub request_bound : ℕ
  pub batch_size : ℕ
  pub deadline : ℕ
  pub workload_class : Priority
  pub dispatch_before : Option ℕ

pub record DirectReservation : Type 0 where
  pub attempt_id : ℕ
  pub request : DirectRequest
  pub pool_id : ℕ
  pub engine_epoch : ℕ
  pub owner_id : ℕ
  pub generation : ℕ

pub DirectRequest-discrete : Discrete DirectRequest
DirectRequest-discrete = hlevel ℕ_discrete

pub DirectReservation-discrete : Discrete DirectReservation
DirectReservation-discrete = hlevel ℕ_discrete

-- `_Pool`
pub record PoolView : Type 0 where
  pub spec : PoolSpec
  pub epoch : ℕ
  pub health : Health
  pub target : ℕ
  pub group_id : ℕ
  pub group_health : Health
  pub group_ceiling : ℕ

-- `_Waiter`, of the kind `direct` or of another
pub record Waiter : Type 0 where
  pub identity : ℕ
  pub tenant_id : ℕ
  pub pool_id : ℕ
  pub owner_id : ℕ
  pub workload_class : Priority
  pub deadline : ℕ
  pub queued_at : ℕ
  pub is_direct : Bool

pub data PermitState : Type 0 where
  reserved send_intent finished failed_not_sent failed_recoverable unknown : PermitState

-- `_Permit`. One object may stand in `permits` and in `direct_attempts` at once, so it is one row
-- here, and `is_held` and `is_tracked` say in which of the two it stands.
pub record Permit : Type 0 where
  pub attempt_id : ℕ
  pub pool_id : ℕ
  pub owner_id : ℕ
  pub workload_class : Priority
  pub engine_epoch : ℕ
  pub state : PermitState
  pub reservation : Option DirectReservation
  pub unknown_at : Option ℕ
  pub idle_verified : Bool
  pub is_held : Bool
  pub is_tracked : Bool

-- An entry of a pool's heap.
pub record Entry : Type 0 where
  pub pool_id : ℕ
  pub rank : ℕ
  pub queued_at : ℕ
  pub identity : ℕ

-- An entry of `request_identity`.
pub record Known : Type 0 where
  pub identity : ℕ
  pub request : DirectRequest
  pub owner_id : ℕ
  pub expires : ℕ

pub record Scheduler : Type 0 where
  pub endpoint_limit : ℕ
  pub tenant_limit : ℕ
  pub request_ttl : ℕ
  pub control_ready : Bool
  -- `_ready_by_pool`, where a pool that has no entry is never ready
  pub ready_by_pool : ℕ → Option ℕ
  pub pools : List PoolView
  pub waiters : List Waiter
  -- `_queues`, each heap in its order
  pub queues : List Entry
  -- `_queue_counts` and `_tenant_counts`
  pub queue_counts : ℕ → ℕ
  pub tenant_counts : ℕ → ℕ → ℕ
  pub permits : List Permit
  pub request_identity : List Known

-- The clocks that a turn reads: datetime.now(UTC) and monotonic().
pub record Now : Type 0 where
  pub wall : ℕ
  pub monotonic : ℕ

abbrev pub view_key : PoolView → ℕ
view_key v = v.spec.pool_id

abbrev pub waiter_key : Waiter → ℕ
waiter_key w = w.identity

abbrev pub permit_key : Permit → ℕ
permit_key p = p.attempt_id

abbrev pub known_key : Known → ℕ
known_key k = k.identity

-- `active`: the permits of the pool
abbrev pub is_active : ℕ → Permit → Bool
is_active pool p = p.is_held && p.pool_id == pool

abbrev pub is_background : ℕ → Permit → Bool
is_background pool p = is_active pool p && not (is_qa p.workload_class)

abbrev pub endpoint_limit_of : PoolView → ℕ
endpoint_limit_of v =
    if is_llm v.spec.resource then v.spec.transport_limit else min v.target v.spec.hard_ceiling

abbrev pub shares_group : ℕ → Option PoolView → Bool
shares_group group none = false
shares_group group (some v) = v.group_id == group && not (is_llm v.spec.resource)

abbrev pub uses_group : List PoolView → ℕ → Permit → Bool
uses_group pools group p = p.is_held && shares_group group (find view_key p.pool_id pools)

abbrev pub is_open : PoolView → Bool
is_open v = is_healthy v.health && is_healthy v.group_health && not (v.target == 0)

abbrev pub is_endpoint_full : PoolView → List Permit → Bool
is_endpoint_full v permits = leb (endpoint_limit_of v) (count (is_active v.spec.pool_id) permits)

abbrev pub is_background_full : PoolView → List Permit → Priority → Bool
is_background_full v permits workload_class =
    is_llm v.spec.resource
    && not (is_qa workload_class)
    && leb v.spec.background_transport_limit (count (is_background v.spec.pool_id) permits)

abbrev pub is_group_full : PoolView → List Permit → List PoolView → Bool
is_group_full v permits pools =
    not (is_llm v.spec.resource)
    && leb v.group_ceiling (count (uses_group pools v.group_id) permits)

-- `SlotCapacity.try_acquire`
unfoldable pub try_acquire : PoolView → List Permit → List PoolView → Priority → Bool
try_acquire v permits pools workload_class =
    is_open v
    && not (is_endpoint_full v permits)
    && not (is_background_full v permits workload_class)
    && not (is_group_full v permits pools)
