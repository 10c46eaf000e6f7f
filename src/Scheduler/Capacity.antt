-- ===== src/Scheduler/Capacity.antt =====
-- memory_scheduler.py: the permits in force never exceed what a pool allows.
use mta_runtime_intramind.Base.{
  ℕ, ◌+◌, ◌≤◌, ◌≡◌, refl, ap, ◌∙◌, subst, Bool, true, false, not, ◌&&◌, Option, none, some, List,
  [], ◌∷◌, arith, leb, ◌==◌, ==→eq, Bool-cases, ◌⊎◌, inl, inr, if◌then◌else◌, if_intro, count,
}
use mta_runtime_intramind.Contracts.Operation.{Priority}
use mta_runtime_intramind.Contracts.Pool.{is_llm}
use mta_runtime_intramind.Contracts.Workload.{is_qa}
use mta_runtime_intramind.Table.{find, update, remove, find-key}
use mta_runtime_intramind.Scheduler.State.{
  DirectReservation, PoolView, Waiter, Permit, Entry, Scheduler, Now, view_key, waiter_key,
  permit_key, is_active, is_background, endpoint_limit_of, try_acquire, is_open, is_endpoint_full,
  is_background_full, is_group_full,
}
use mta_runtime_intramind.Scheduler.Queue.{
  put, add_waiter, remove_waiter, without, is_past, stands_for, first_of,
}
use mta_runtime_intramind.Scheduler.Direct.{new_permit}

-- The requests' turns leave the permits and the pools alone.
pub record Kept (s t : Scheduler) : Type 0 where
  pub permits : t.permits ≡ s.permits
  pub pools : t.pools ≡ s.pools

pub Kept-refl : (s : Scheduler) → Kept s s
Kept-refl s = record { permits = refl; pools = refl }

pub Kept-trans : {s t u : Scheduler} → Kept s t → Kept t u → Kept s u
Kept-trans f g = record { permits = g.permits ∙ f.permits; pools = g.pools ∙ f.pools }

pub remove_waiter-Kept : (id : ℕ) (s : Scheduler) → Kept s (remove_waiter id s)
unfolding remove_waiter
remove_waiter-Kept id s = removed (find waiter_key id s.waiters)
  where
    removed :
        (o : Option Waiter)
        → Kept s (elim o as (λ x. Scheduler) [
          | none ↦ s
          | some w ↦ without w (record s { waiters = remove waiter_key id s.waiters })
        ])
    removed none = Kept-refl s
    removed (some w) = record { permits = refl; pools = refl }

pub add_waiter-Kept : (w : Waiter) (s : Scheduler) → Kept s (add_waiter w s)
unfolding add_waiter
add_waiter-Kept w s = record { permits = refl; pools = refl }

pub first_of-Kept :
    (now : Now) (pool : ℕ) (es : List Entry) (s : Scheduler) → Kept s (first_of now pool es s).0
unfolding first_of
first_of-Kept now pool [] s = record { permits = refl; pools = refl }
first_of-Kept now pool (e ∷ es) s =
    let head = stands_for e (find waiter_key e.identity s.waiters) in
    let past = e.pool_id == pool && is_past now head in
    let s' = if past then remove_waiter e.identity s else s in
    let rest =
      Kept-trans
        (if_intro (Kept s) past _ _ (λ _. remove_waiter-Kept e.identity s) (λ _. Kept-refl s))
        (first_of-Kept now pool es s') in
    if_intro {A = Scheduler × Option Waiter} (λ x. Kept s x.0) (not (e.pool_id == pool)) _ _
      (λ _. record { permits = rest.permits; pools = rest.pools })
      λ _.
        if_intro {A = Scheduler × Option Waiter} (λ x. Kept s x.0) past _ _ (λ _. rest)
          λ _. chosen head (first_of now pool es s') rest
  where
    chosen :
        (o : Option Waiter) (x : Scheduler × Option Waiter)
        → Kept s x.0
        → Kept s
            (elim o as (λ y. Scheduler × Option Waiter) [
              | none ↦ x
              | some w ↦ (record s { queues = e ∷ es }, some w)
            ]).0
    chosen none x k = k
    chosen (some w) x k = record { permits = refl; pools = refl }

pub record WithinCapacity (pools : List PoolView) (permits : List Permit) : Type 0 where
  pub endpoint :
      (id : ℕ) (v : PoolView)
      → find view_key id pools ≡ some v
      → count (is_active id) permits ≤ endpoint_limit_of v
  pub background :
      (id : ℕ) (v : PoolView)
      → find view_key id pools ≡ some v
      → is_llm v.spec.resource ≡ true
      → count (is_background id) permits ≤ v.spec.background_transport_limit

count-remove :
    (p : Permit → Bool) (k : ℕ) (ps : List Permit) → count p (remove permit_key k ps) ≤ count p ps
unfolding remove
count-remove p k [] = omega arith
count-remove p k (x ∷ ps) = ground (arith, count-remove p k ps)

count-update :
    (p : Permit → Bool) (k : ℕ) (f : Permit → Permit) (ps : List Permit)
    → ((x : Permit) → p (f x) ≡ true → p x ≡ true)
    → count p (update permit_key k f ps) ≤ count p ps
unfolding update
count-update p k f [] kept = omega arith
count-update p k f (x ∷ ps) kept = ground (arith, kept x, count-update p k f ps kept)

-- A pool whose name is not the permit's counts no more; the permit's own pool counts one more.
count-put :
    (p : Permit → Bool) (x : Permit) (ps : List Permit)
    → count p (put permit_key x ps) ≤ count p ps + (if p x then 1 else 0)
count-put p x ps = ground (arith, count-remove p x.attempt_id ps)

pub update-WithinCapacity :
    (k : ℕ) (f : Permit → Permit) (pools : List PoolView) (ps : List Permit)
    → ((x : Permit) → (f x).pool_id ≡ x.pool_id)
    → ((x : Permit) → (f x).workload_class ≡ x.workload_class)
    → ((x : Permit) → (f x).is_held ≡ true → x.is_held ≡ true)
    → WithinCapacity pools ps
    → WithinCapacity pools (update permit_key k f ps)
update-WithinCapacity k f pools ps pool class held v = record {
  endpoint = λ id u e.
      omega (arith, v.endpoint id u e, count-update (is_active id) k f ps (λ x. active id x));
  background = λ id u e llm. omega (
    arith,
    v.background id u e llm,
    count-update (is_background id) k f ps (λ x. background id x),
  );
}
  where
    active : (id : ℕ) (x : Permit) → is_active id (f x) ≡ true → is_active id x ≡ true
    active id x h = ground (arith, pool x, held x)

    background : (id : ℕ) (x : Permit) → is_background id (f x) ≡ true → is_background id x ≡ true
    background id x h = ground (arith, pool x, held x, ap is_qa (class x))

same_view : (o : Option PoolView) (u v : PoolView) → o ≡ some u → o ≡ some v → u ≡ v
same_view o u v p q = cc

four : (a b c d : Bool) → (a && b && c && d) ≡ true → (b ≡ true) × (c ≡ true)
four a b c d h = (ground arith, ground arith)

-- What `try_acquire` has seen.
try_acquire-not_full :
    (v : PoolView) (ps : List Permit) (pools : List PoolView) (class : Priority)
    → try_acquire v ps pools class ≡ true
    → (not (is_endpoint_full v ps) ≡ true) × (not (is_background_full v ps class) ≡ true)
unfolding try_acquire
try_acquire-not_full v ps pools class h =
    four (is_open v) (not (is_endpoint_full v ps)) (not (is_background_full v ps class))
      (not (is_group_full v ps pools)) h

room : (limit n : ℕ) → not (leb limit n) ≡ true → n + 1 ≤ limit
room limit n e = ground arith

background_room :
    (x y : Bool) (limit n : ℕ)
    → x ≡ true
    → y ≡ false
    → not (x && not y && leb limit n) ≡ true
    → n + 1 ≤ limit
background_room x y limit n p q e = ground arith

no_more :
    (test : Bool) (n m limit : ℕ)
    → test ≡ false
    → n ≤ m + (if test then 1 else 0)
    → m ≤ limit
    → n ≤ limit
no_more test n m limit h more fits = ground arith

one_more :
    (test : Bool) (n m limit : ℕ) → n ≤ m + (if test then 1 else 0) → m + 1 ≤ limit → n ≤ limit
one_more test n m limit more fits = ground arith

pub granted-WithinCapacity :
    (pools : List PoolView) (ps : List Permit) (v : PoolView) (r : DirectReservation)
    → find view_key r.pool_id pools ≡ some v
    → try_acquire v ps pools r.request.workload_class ≡ true
    → WithinCapacity pools ps
    → WithinCapacity pools (put permit_key (new_permit r) ps)
granted-WithinCapacity pools ps v r found acquired within = record {
  endpoint = λ id u e. endpoint id u e (Bool-cases (r.pool_id == id));
  background = λ id u e llm.
      background id u e llm (Bool-cases (r.pool_id == id))
        (Bool-cases (is_qa r.request.workload_class));
}
  where
    class : Priority
    class = r.request.workload_class

    seen : (not (is_endpoint_full v ps) ≡ true) × (not (is_background_full v ps class) ≡ true)
    seen = try_acquire-not_full v ps pools class acquired

    own : v.spec.pool_id ≡ r.pool_id
    own = find-key view_key r.pool_id pools v found

    at_own : (id : ℕ) → (r.pool_id == id) ≡ true → v.spec.pool_id ≡ id
    at_own id here = own ∙ ==→eq r.pool_id id here

    same :
        (id : ℕ) (u : PoolView) → (r.pool_id == id) ≡ true → find view_key id pools ≡ some u → v ≡ u
    same id u here e =
        same_view (find view_key id pools) v u
          (subst (λ k. find view_key k pools ≡ some v) (==→eq r.pool_id id here) found) e

    endpoint :
        (id : ℕ) (u : PoolView)
        → find view_key id pools ≡ some u
        → ((r.pool_id == id) ≡ true) ⊎ ((r.pool_id == id) ≡ false)
        → count (is_active id) (put permit_key (new_permit r) ps) ≤ endpoint_limit_of u
    endpoint id u e (inr there) =
        no_more (is_active id (new_permit r)) _ (count (is_active id) ps) (endpoint_limit_of u)
          there (count-put (is_active id) (new_permit r) ps) (within.endpoint id u e)
    endpoint id u e (inl here) =
        one_more (is_active id (new_permit r)) _ (count (is_active id) ps) (endpoint_limit_of u)
          (count-put (is_active id) (new_permit r) ps)
          (subst (λ k. count (is_active k) ps + 1 ≤ endpoint_limit_of u) (at_own id here)
            (subst (λ w. count (is_active v.spec.pool_id) ps + 1 ≤ endpoint_limit_of w)
              (same id u here e)
              (room (endpoint_limit_of v) (count (is_active v.spec.pool_id) ps) seen.0)))

    background :
        (id : ℕ) (u : PoolView)
        → find view_key id pools ≡ some u
        → is_llm u.spec.resource ≡ true
        → ((r.pool_id == id) ≡ true) ⊎ ((r.pool_id == id) ≡ false)
        → (is_qa class ≡ true) ⊎ (is_qa class ≡ false)
        → count (is_background id) (put permit_key (new_permit r) ps)
          ≤ u.spec.background_transport_limit
    background id u e llm (inr there) qa =
        no_more (is_background id (new_permit r)) _ (count (is_background id) ps) _ (rw there refl)
          (count-put (is_background id) (new_permit r) ps) (within.background id u e llm)
    background id u e llm (inl here) (inl qa) =
        no_more (is_background id (new_permit r)) _ (count (is_background id) ps) _
          (rw (here, qa) refl) (count-put (is_background id) (new_permit r) ps)
          (within.background id u e llm)
    background id u e llm (inl here) (inr other) =
        one_more (is_background id (new_permit r)) _ (count (is_background id) ps) _
          (count-put (is_background id) (new_permit r) ps)
          (subst (λ k. count (is_background k) ps + 1 ≤ u.spec.background_transport_limit)
            (at_own id here)
            (subst
              (λ w. count (is_background v.spec.pool_id) ps + 1 ≤ w.spec.background_transport_limit)
              (same id u here e)
              (background_room (is_llm v.spec.resource) (is_qa class)
                v.spec.background_transport_limit (count (is_background v.spec.pool_id) ps)
                (ap (λ w. is_llm w.spec.resource) (same id u here e) ∙ llm) other seen.1)))
