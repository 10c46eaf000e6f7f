-- ===== src/Scheduler/Queue.antt =====
-- memory_scheduler.py: `_pool`, `_first`, `_add_waiter`, `_remove_waiter`, `_validate`, `_enqueue`
-- and `leave`. `_notify` wakes the waiting callers and changes nothing else.
use mta_runtime_intramind.Base.{
  ℕ, ◌+◌, ◌-◌, Bool, true, false, not, ◌&&◌, ◌||◌, Option, none, some, List, [], ◌∷◌, ltb, leb,
  ◌==◌, if◌then◌else◌, decides, select, Result, ok, ◌>>=◌, ◌>>◌, guard, raise_if, or_raise,
  runtime_conflict, admission_denied, endpoint_unavailable, request_deadline_exceeded,
  waiting_buffer_full, exceeds_profile, waiting_identity_conflict, already_accepted,
}
use mta_runtime_intramind.Contracts.Pool.{kind_of, same_kind, request_limit, max_batch_size}
use mta_runtime_intramind.Contracts.Workload.{rank}
use mta_runtime_intramind.Table.{find, remove}
use mta_runtime_intramind.Scheduler.State.{
  DirectRequest, DirectRequest-discrete, PoolView, Waiter, PermitState, Permit, Entry, Scheduler,
  Now, view_key, waiter_key, known_key,
}

-- `_pool`
abbrev pub pool_of : Scheduler → ℕ → Result PoolView
pool_of s id = or_raise (find view_key id s.pools) (admission_denied endpoint_unavailable true)

-- `dict.pop` is `remove`; the assignment to a key
abbrev pub put {ℓ} : {A : Type ℓ} → (A → ℕ) → A → List A → List A
put key x xs = x ∷ remove key (key x) xs

-- The tuples of a heap compare by rank, by arrival and by identity.
abbrev pub entry_before : Entry → Entry → Bool
entry_before e f =
    ltb e.rank f.rank
    || (e.rank == f.rank
        && (ltb e.queued_at f.queued_at
            || (e.queued_at == f.queued_at && leb e.identity f.identity)))

unfoldable pub push : Entry → List Entry → List Entry
push e [] = e ∷ []
push e (f ∷ fs) = if entry_before e f then e ∷ f ∷ fs else f ∷ push e fs

abbrev pub bump : ℕ → (ℕ → ℕ) → (ℕ → ℕ) → ℕ → ℕ
bump k f counts x = if x == k then f (counts x) else counts x

abbrev pub bump_tenant : ℕ → ℕ → (ℕ → ℕ) → (ℕ → ℕ → ℕ) → ℕ → ℕ → ℕ
bump_tenant pool tenant f counts x y =
    if x == pool && y == tenant then f (counts x y) else counts x y

abbrev pub entry_of : Waiter → Entry
entry_of w = record {
  pool_id = w.pool_id;
  rank = rank w.workload_class;
  queued_at = w.queued_at;
  identity = w.identity;
}

-- `_add_waiter`
unfoldable pub add_waiter : Waiter → Scheduler → Scheduler
unfolding remove push
add_waiter w s = record s {
  waiters = put waiter_key w s.waiters;
  queues = push (entry_of w) s.queues;
  queue_counts = if w.is_direct then bump w.pool_id (λ n. n + 1) s.queue_counts else s.queue_counts;
  tenant_counts =
      if w.is_direct
      then bump_tenant w.pool_id w.tenant_id (λ n. n + 1) s.tenant_counts
      else s.tenant_counts;
}

abbrev pub without : Waiter → Scheduler → Scheduler
without w s = record s {
  queue_counts = if w.is_direct then bump w.pool_id (λ n. n - 1) s.queue_counts else s.queue_counts;
  tenant_counts =
      if w.is_direct
      then bump_tenant w.pool_id w.tenant_id (λ n. n - 1) s.tenant_counts
      else s.tenant_counts;
}

-- `_remove_waiter`
unfoldable pub remove_waiter : ℕ → Scheduler → Scheduler
unfolding remove
remove_waiter identity s = elim (find waiter_key identity s.waiters) [
  | none ↦ s
  | some w ↦ without w (record s { waiters = remove waiter_key identity s.waiters })
]

-- The waiter that an entry stands for, unless it is gone or came again later.
abbrev pub stands_for : Entry → Option Waiter → Option Waiter
stands_for e none = none
stands_for e (some w) =
    if w.pool_id == e.pool_id && w.queued_at == e.queued_at then some w else none

abbrev pub is_past : Now → Option Waiter → Bool
is_past now none = false
is_past now (some w) = leb w.deadline now.monotonic

-- `_first`: the entries of the pool are looked at in their order; those that stand for nothing
-- are dropped, and a waiter past its deadline is removed.
unfoldable pub first_of : Now → ℕ → List Entry → Scheduler → Scheduler × Option Waiter
unfolding remove_waiter
first_of now pool [] s = (record s { queues = [] }, none)
first_of now pool (e ∷ es) s =
    let head = stands_for e (find waiter_key e.identity s.waiters) in
    let past = e.pool_id == pool && is_past now head in
    let rest = first_of now pool es (if past then remove_waiter e.identity s else s) in
    if not (e.pool_id == pool)
    then (record rest.0 { queues = e ∷ rest.0.queues }, rest.1)
    else if past
    then rest
    else elim head [ none ↦ rest | some w ↦ (record s { queues = e ∷ es }, some w) ]

unfoldable pub first : Now → ℕ → Scheduler → Scheduler × Option Waiter
unfolding first_of
first now pool s = first_of now pool s.queues s

abbrev pub revision_differs : Option ℕ → ℕ → Bool
revision_differs none revision = false
revision_differs (some r) revision = not (r == revision)

-- `_validate`
unfoldable pub validate : DirectRequest → PoolView → Result (Unit {0})
validate request v =
    raise_if
      (not (same_kind request.kind (kind_of v.spec.resource))
        || not (request.model_profile == v.spec.model_profile)
        || revision_differs request.model_revision v.spec.model_revision
        || not (request.capacity_profile_id == v.spec.profile_id)
        || ltb (request_limit v.spec.resource) request.request_bound
        || ltb (max_batch_size 1 v.spec.resource) request.batch_size)
      (admission_denied exceeds_profile false)

-- The attempts that this request has had.
abbrev pub was_for : ℕ → Permit → Bool
was_for identity p =
    p.is_tracked && elim p.reservation [ none ↦ false | some r ↦ r.request.request_id == identity ]

abbrev pub generation_of : Permit → ℕ
generation_of p = elim p.reservation [ none ↦ 0 | some r ↦ r.generation ]

-- `max(previous, key=…)`, which keeps the first of equals
unfoldable pub latest : List Permit → Option Permit
latest [] = none
latest (p ∷ ps) = elim (latest ps) [
  | none ↦ some p
  | some q ↦ if ltb (generation_of p) (generation_of q) then some q else some p
]

abbrev pub may_come_back : PermitState → Bool
may_come_back PermitState.failed_not_sent = true
may_come_back PermitState.failed_recoverable = true
may_come_back _ = false

abbrev pub accepted_before : Option Permit → Bool
accepted_before none = false
accepted_before (some p) = not (may_come_back p.state)

abbrev pub waiter_of : Now → DirectRequest → ℕ → ℕ → Waiter
waiter_of now request pool owner = record {
  identity = request.request_id;
  tenant_id = request.tenant_id;
  pool_id = pool;
  owner_id = owner;
  workload_class = request.workload_class;
  deadline = now.monotonic + (request.deadline - now.wall);
  queued_at = now.monotonic;
  is_direct = true;
}

-- `_enqueue` of a request that is not waiting; the readings of one clock within a turn are one
unfoldable pub enqueue_new :
    Now → DirectRequest → ℕ → ℕ → PoolView → Scheduler → Result (Scheduler × ℕ)
unfolding validate add_waiter
enqueue_new now request pool owner v s = do
  raise_if (leb request.deadline now.wall) (admission_denied request_deadline_exceeded true)
  raise_if
      (leb s.endpoint_limit (s.queue_counts pool)
        || leb s.tenant_limit (s.tenant_counts pool request.tenant_id))
      (admission_denied waiting_buffer_full true)
  validate request v
  let s' = add_waiter (waiter_of now request pool owner) s
  ok (
    record s' {
      request_identity =
          put known_key
            (record {
              identity = request.request_id;
              request = request;
              owner_id = owner;
              expires = now.monotonic + s.request_ttl;
            })
            s'.request_identity;
    },
    now.monotonic,
  )

-- `_enqueue`, with the instant that the request has waited from
unfoldable pub enqueue : Now → DirectRequest → ℕ → ℕ → Scheduler → Result (Scheduler × ℕ)
unfolding enqueue_new latest
enqueue now request pool owner s = do
  v ← pool_of s pool
  elim (find known_key request.request_id s.request_identity) [
    | none ↦ enqueue_new now request pool owner v s
    | some known ↦ (do
      guard (decides (DirectRequest-discrete known.request request) && known.owner_id == owner)
          (runtime_conflict waiting_identity_conflict)
      elim (find waiter_key request.request_id s.waiters) [
        | some w ↦ ok (s, w.queued_at)
        | none ↦ (do
          raise_if (accepted_before (latest (select (was_for request.request_id) s.permits)))
              (runtime_conflict already_accepted)
          enqueue_new now request pool owner v s)
      ])
  ]

-- `leave`
unfoldable pub leave : ℕ → ℕ → Scheduler → Scheduler
unfolding remove_waiter
leave identity owner s = elim (find waiter_key identity s.waiters) [
  | none ↦ s
  | some w ↦ if w.owner_id == owner then remove_waiter identity s else s
]
