-- ===== src/Scheduler/Direct.antt =====
-- memory_scheduler.py: `_reserve`, and the calls that the holder of a direct reservation makes:
-- `_direct`, `mark_send`, `heartbeat`, `finish` and `unknown`. `_expire_dirty` at the head of
-- `_reserve` touches only the pools that a restart left unverified, which the state leaves out.
use mta_runtime_intramind.Base.{
  ℕ, ◌+◌, Bool, true, false, not, ◌&&◌, ◌||◌, Option, none, some, ltb, leb, ◌==◌, if◌then◌else◌,
  decides, Result, ok, ◌>>=◌, ◌>>◌, guard, raise_if, or_raise, runtime_conflict, admission_denied,
  older_epoch, recovery_identity_conflict, termination_not_proven, recovery_limit,
  stale_direct_ownership, direct_cannot_send, direct_not_sent,
}
use mta_runtime_intramind.Table.{find, update}
use mta_runtime_intramind.Scheduler.State.{
  DirectRequest, DirectRequest-discrete, DirectReservation, DirectReservation-discrete, PoolView,
  Waiter, PermitState, Permit, Scheduler, Now, waiter_key, permit_key, try_acquire,
}
use mta_runtime_intramind.Scheduler.Queue.{
  pool_of, put, validate, remove_waiter, first, may_come_back, generation_of,
}

abbrev pub is_reserved : PermitState → Bool
is_reserved PermitState.reserved = true
is_reserved _ = false

abbrev pub is_recoverable : PermitState → Bool
is_recoverable PermitState.failed_recoverable = true
is_recoverable _ = false

abbrev pub tracked : Option Permit → Option Permit
tracked none = none
tracked (some p) = if p.is_tracked then some p else none

-- `direct_attempts.get(attempt_id)`
abbrev pub direct_attempt : Scheduler → ℕ → Option Permit
direct_attempt s id = tracked (find permit_key id s.permits)

abbrev pub is_reservation : DirectReservation → Option DirectReservation → Bool
is_reservation r none = false
is_reservation r (some old) = decides (DirectReservation-discrete old r)

-- `_direct`
unfoldable pub direct : DirectReservation → Scheduler → Result Permit
direct r s = do
  p ← or_raise (direct_attempt s r.attempt_id) (runtime_conflict stale_direct_ownership)
  guard (is_reservation r p.reservation) (runtime_conflict stale_direct_ownership)
  ok p

abbrev pub same_request : DirectRequest → Option DirectReservation → Bool
same_request request none = false
same_request request (some r) = decides (DirectRequest-discrete r.request request)

-- The part of `_reserve` for a recovery: the generation, or `none` where the attempt must wait.
unfoldable pub recovery : DirectRequest → ℕ → ℕ → PoolView → Option Permit → Result (Option ℕ)
recovery request pool owner v found = do
  old ← or_raise found (runtime_conflict recovery_identity_conflict)
  guard (same_request request old.reservation && old.owner_id == owner && old.pool_id == pool)
      (runtime_conflict recovery_identity_conflict)
  guard (may_come_back old.state) (runtime_conflict termination_not_proven)
  raise_if (ltb 2 (generation_of old + 1)) (admission_denied recovery_limit false)
  ok (
      if is_recoverable old.state && old.engine_epoch == v.epoch && not old.idle_verified
      then none
      else some (generation_of old + 1))

abbrev pub generation_for :
    DirectRequest → ℕ → ℕ → PoolView → Scheduler → Option ℕ → Result (Option ℕ)
generation_for request pool owner v s none = ok (some 0)
generation_for request pool owner v s (some previous) =
    recovery request pool owner v (direct_attempt s previous)

abbrev pub epoch_refused : Option ℕ → ℕ → Option ℕ → Bool
epoch_refused none epoch previous = false
epoch_refused (some e) epoch none = not (e == epoch)
epoch_refused (some e) epoch (some previous) = false

-- `monotonic() < self._ready_by_pool.get(pool_id, inf)`
abbrev pub not_ready : Now → Option ℕ → Bool
not_ready now none = true
not_ready now (some at) = ltb now.monotonic at

abbrev pub direct_reservation : ℕ → DirectRequest → ℕ → ℕ → PoolView → ℕ → DirectReservation
direct_reservation id request pool owner v generation = record {
  attempt_id = id;
  request = request;
  pool_id = pool;
  engine_epoch = v.epoch;
  owner_id = owner;
  generation = generation;
}

abbrev pub new_permit : DirectReservation → Permit
new_permit r = record {
  attempt_id = r.attempt_id;
  pool_id = r.pool_id;
  owner_id = r.owner_id;
  workload_class = r.request.workload_class;
  engine_epoch = r.engine_epoch;
  state = PermitState.reserved;
  reservation = some r;
  unknown_at = none;
  idle_verified = false;
  is_held = true;
  is_tracked = true;
}

abbrev pub is_waiter : Waiter → Option Waiter → Bool
is_waiter w none = false
is_waiter w (some v) = v.identity == w.identity

-- The turn of the first waiter, if the pool has room.
unfoldable pub take_turn :
    Now → DirectReservation → PoolView → Waiter → Scheduler → Scheduler × Option DirectReservation
unfolding first try_acquire remove_waiter
take_turn now r v w s =
    let (s', head) = first now r.pool_id s in
    let s'' = remove_waiter r.request.request_id s' in
    if not (is_waiter w head) || not (try_acquire v s'.permits s'.pools r.request.workload_class)
    then (s', none)
    else (record s'' { permits = put permit_key (new_permit r) s''.permits }, some r)

abbrev pub turn_of :
    Now
    → ℕ
    → DirectRequest
    → ℕ
    → ℕ
    → PoolView
    → Waiter
    → Scheduler
    → Option ℕ
    → Scheduler × Option DirectReservation
turn_of now id request pool owner v w s none = (s, none)
turn_of now id request pool owner v w s (some generation) =
    take_turn now (direct_reservation id request pool owner v generation) v w s

abbrev pub reserve_for :
    Now
    → ℕ
    → DirectRequest
    → ℕ
    → ℕ
    → Option ℕ
    → PoolView
    → Scheduler
    → Option Waiter
    → Result (Scheduler × Option DirectReservation)
reserve_for now id request pool owner previous v s none = ok (s, none)
reserve_for now id request pool owner previous v s (some w) =
    if not (w.owner_id == owner)
      || leb request.deadline now.wall
      || not s.control_ready
      || not_ready now (s.ready_by_pool pool)
    then ok (s, none)
    else (do
      validate request v
      raise_if (epoch_refused request.expected_engine_epoch v.epoch previous)
          (runtime_conflict older_epoch)
      generation ← generation_for request pool owner v s previous
      ok (turn_of now id request pool owner v w s generation))

-- `_reserve`; `id` is the UUID drawn for the attempt
unfoldable pub reserve :
    Now
    → ℕ
    → DirectRequest
    → ℕ
    → ℕ
    → Option ℕ
    → Scheduler
    → Result (Scheduler × Option DirectReservation)
unfolding validate recovery take_turn
reserve now id request pool owner previous s = do
  v ← pool_of s pool
  reserve_for now id request pool owner previous v s (find waiter_key request.request_id s.waiters)

abbrev pub with_state : PermitState → Permit → Permit
with_state state p = record p { state = state }

-- `mark_send`
unfoldable pub mark_send : Now → DirectReservation → Scheduler → Result Scheduler
unfolding direct
mark_send now r s = do
  p ← direct r s
  guard (is_reserved p.state && p.is_held && ltb now.wall r.request.deadline)
      (runtime_conflict direct_cannot_send)
  ok (record s {
    permits = update permit_key r.attempt_id (with_state PermitState.send_intent) s.permits;
  })

abbrev pub is_underway : PermitState → Bool
is_underway PermitState.reserved = true
is_underway PermitState.send_intent = true
is_underway _ = false

-- `heartbeat`
unfoldable pub heartbeat : Now → DirectReservation → Scheduler → Result Bool
unfolding direct
heartbeat now r s = do
  p ← direct r s
  ok (p.is_held && is_underway p.state && ltb now.wall r.request.deadline)

-- The two evidences that `finish` accepts; another text raises before anything is read.
pub data Evidence : Type 0 where
  completed_response not_sent : Evidence

abbrev pub outcome : Evidence → PermitState
outcome completed_response = PermitState.finished
outcome not_sent = PermitState.failed_not_sent

abbrev pub is_completed : Evidence → Bool
is_completed completed_response = true
is_completed not_sent = false

-- The new state, and `SlotCapacity.release`.
abbrev pub released : Evidence → Permit → Permit
released evidence p = record p { state = outcome evidence; is_held = false }

-- `finish`
unfoldable pub finish : DirectReservation → Evidence → Scheduler → Result Scheduler
unfolding direct
finish r evidence s = do
  p ← direct r s
  raise_if (is_completed evidence && is_reserved p.state) (runtime_conflict direct_not_sent)
  ok (
      if p.is_held
      then record s { permits = update permit_key r.attempt_id (released evidence) s.permits }
      else s)

abbrev pub lost : Now → Permit → Permit
lost now p = record p { state = PermitState.unknown; unknown_at = some now.wall }

-- `unknown`
unfoldable pub unknown : Now → DirectReservation → Scheduler → Result Scheduler
unfolding direct
unknown now r s = do
  p ← direct r s
  ok (
      if p.is_held
      then record s { permits = update permit_key r.attempt_id (lost now) s.permits }
      else s)
