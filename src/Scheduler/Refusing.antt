-- ===== src/Scheduler/Refusing.antt =====
-- memory_scheduler.py: what `try_reserve` leaves of a request that it did not grant.
use mta_runtime_intramind.Base.{
  ℕ, ◌≡◌, refl, true, false, not, Option, none, some, List, [], ◌∷◌, ◌==◌, if◌then◌else◌, arith,
  if_intro, select, any, leb, ◌||◌, OnOk, OnOk-any, OnOk-bind, OnOk-if, OnOk-raise_if,
  OnOk-or_raise, runtime_conflict, send_budget, admission_denied, not_found, value_error,
  integrity_error, Error, Result, ok, err,
}
use mta_runtime_intramind.Table.{find, remove}
use mta_runtime_intramind.Scheduler.State.{
  DirectRequest, DirectReservation, PoolView, Waiter, Entry, Scheduler, Now, view_key, waiter_key,
  known_key, try_acquire,
}
use mta_runtime_intramind.Scheduler.Capacity.{Kept, Kept-refl, Kept-trans, first_of-Kept}
use mta_runtime_intramind.Scheduler.Reserving.{enqueue-Kept, forget-Kept}
use mta_runtime_intramind.Scheduler.Queue.{remove_waiter, without, first, validate, enqueue}
use mta_runtime_intramind.Scheduler.Direct.{
  reserve, reserve_for, take_turn, is_waiter, direct_reservation, not_ready, epoch_refused,
}
use mta_runtime_intramind.Scheduler.Trying.{
  Answer, granted, refused, raised, model_not_ready, dispatch_cutoff, is_closed, is_cut_off,
  stands_in, forget, after_reserve, after_enqueue, try_turn, try_reserve, answer_to,
}

find-remove : {A : Type 0} (key : A → ℕ) (k : ℕ) (xs : List A) → find key k (remove key k xs) ≡ none
unfolding find remove
find-remove key k [] = refl
find-remove key k (x ∷ xs) = ground (arith, find-remove key k xs)

none_stands :
    (pool identity : ℕ) (es : List Entry)
    → any (stands_in pool identity) (select (λ e. not (stands_in pool identity e)) es) ≡ false
none_stands pool identity [] = refl
none_stands pool identity (e ∷ es) =
    if_intro (λ fs. any (stands_in pool identity) fs ≡ false) (not (stands_in pool identity e)) _ _
      (λ other. ground (arith, other, none_stands pool identity es))
      (λ _. none_stands pool identity es)

-- No waiter, no identity and no entry of the pool's heap is left of the request.
pub record IsForgotten (pool identity : ℕ) (s : Scheduler) : Type 0 where
  pub waiter : find waiter_key identity s.waiters ≡ none
  pub known : find known_key identity s.request_identity ≡ none
  pub entry : any (stands_in pool identity) s.queues ≡ false

removed_waiter :
    (identity : ℕ) (s : Scheduler)
    → find waiter_key identity (remove_waiter identity s).waiters ≡ none
unfolding remove_waiter
removed_waiter identity s = gone (find waiter_key identity s.waiters) refl
  where
    gone :
        (o : Option Waiter)
        → find waiter_key identity s.waiters ≡ o
        → find waiter_key identity
            (elim o as (λ x. Scheduler) [
              | none ↦ s
              | some w ↦ without w (record s { waiters = remove waiter_key identity s.waiters })
            ]).waiters
          ≡ none
    gone none e = e
    gone (some w) e = find-remove waiter_key identity s.waiters

forget-IsForgotten :
    (pool identity : ℕ) (s : Scheduler) → IsForgotten pool identity (forget pool identity s)
unfolding forget
forget-IsForgotten pool identity s = record {
  waiter = removed_waiter identity s;
  known = find-remove known_key identity (remove_waiter identity s).request_identity;
  entry = none_stands pool identity (remove_waiter identity s).queues;
}

-- Without a reservation the permits and the pools are as they were.
abbrev Unless : Scheduler → Scheduler × Option DirectReservation → Type 0
Unless s (t, none) = Kept s t
Unless s (t, some r) = Unit

module _ (now : Now) (s : Scheduler) where
  take_turn-Unless :
      (r : DirectReservation) (v : PoolView) (w : Waiter) → Unless s (take_turn now r v w s)
  unfolding take_turn first
  take_turn-Unless r v w =
      let (s', head) = first now r.pool_id s in
      if_intro {A = Scheduler × Option DirectReservation} (Unless s)
        (not (is_waiter w head) || not (try_acquire v s'.permits s'.pools r.request.workload_class))
        _ _ (λ _. first_of-Kept now r.pool_id s.queues s) (λ _. tt)

  reserve-Unless :
      (id : ℕ) (request : DirectRequest) (pool owner : ℕ)
      → OnOk (Unless s) (reserve now id request pool owner none s)
  unfolding reserve
  reserve-Unless id request pool owner =
      OnOk-or_raise (Unless s) (find view_key pool s.pools) _ _
        λ v found. turn v (find waiter_key request.request_id s.waiters)
    where
      turn :
          (v : PoolView) (o : Option Waiter)
          → OnOk (Unless s) (reserve_for now id request pool owner none v s o)
      turn v none = Kept-refl s
      turn v (some w) =
          OnOk-if (Unless s)
            (not (w.owner_id == owner)
              || leb request.deadline now.wall
              || not s.control_ready
              || not_ready now (s.ready_by_pool pool))
            _ _ (λ _. Kept-refl s)
            λ _.
              OnOk-bind (λ _. Unit {0}) (Unless s) (validate request v) _
                (OnOk-any (validate request v))
                λ _ _.
                  OnOk-raise_if (Unless s)
                    (epoch_refused request.expected_engine_epoch v.epoch none) _ _
                    λ _. take_turn-Unless (direct_reservation id request pool owner v 0) v w

-- What a try leaves that was not granted: nothing of the request, and every permit.
abbrev pub LeavesNothing : ℕ → ℕ → Scheduler → Scheduler × Answer → Type 0
LeavesNothing pool identity s (t, granted r) = Unit
LeavesNothing pool identity s (t, refused reason) = IsForgotten pool identity t × Kept s t
LeavesNothing pool identity s (t, raised e) = IsForgotten pool identity t × Kept s t

module _ (now : Now) (id : ℕ) (request : DirectRequest) (pool owner : ℕ) (s : Scheduler) where
  abbrev Leaves : Scheduler × Answer → Type 0
  Leaves = LeavesNothing pool request.request_id s

  forgotten :
      (t : Scheduler)
      → Kept s t
      → IsForgotten pool request.request_id (forget pool request.request_id t)
        × Kept s (forget pool request.request_id t)
  forgotten t k = (
    forget-IsForgotten pool request.request_id t,
    Kept-trans k (forget-Kept pool request.request_id t),
  )

  after_reserve-Leaves :
      (t : Scheduler) (m : Result (Scheduler × Option DirectReservation))
      → Kept s t
      → OnOk (Unless t) m
      → Leaves (after_reserve pool request.request_id t m)
  after_reserve-Leaves t (err e) k h = forgotten t k
  after_reserve-Leaves t (ok (u, none)) k h = forgotten u (Kept-trans k h)
  after_reserve-Leaves t (ok (u, some r)) k h = tt

  answer_to-Leaves :
      (t : Scheduler) (e : Error)
      → IsForgotten pool request.request_id t × Kept s t
      → Leaves (t, answer_to e)
  answer_to-Leaves t (admission_denied detail true) h = h
  answer_to-Leaves t (admission_denied detail false) h = h
  answer_to-Leaves t (runtime_conflict detail) h = h
  answer_to-Leaves t (send_budget detail) h = h
  answer_to-Leaves t (not_found detail) h = h
  answer_to-Leaves t (value_error detail) h = h
  answer_to-Leaves t integrity_error h = h

  after_enqueue-Leaves :
      (m : Result (Scheduler × ℕ))
      → OnOk (λ x. Kept s x.0) m
      → Leaves (after_enqueue now id request pool owner s m)
  after_enqueue-Leaves (err e) h =
      answer_to-Leaves (forget pool request.request_id s) e (forgotten s (Kept-refl s))
  after_enqueue-Leaves (ok (t, at)) h =
      after_reserve-Leaves t (reserve now id request pool owner none t) h
        (reserve-Unless now t id request pool owner)

  -- Where `try_reserve` refuses a request that the scheduler did not know before, or raises, no
  -- waiter, no identity and no entry of the pool's heap is left of it, and the permits and the
  -- pools are as they were.
  pub try_reserve-LeavesNothing :
      IsForgotten pool request.request_id s
      → LeavesNothing pool request.request_id s (try_reserve now id request pool owner s)
  unfolding try_reserve try_turn
  try_reserve-LeavesNothing before = tried (find view_key pool s.pools)
    where
      tried :
          (o : Option PoolView)
          → Leaves (elim o as (λ x. Scheduler × Answer) [
            | none ↦ (s, refused model_not_ready)
            | some v ↦
                if is_closed now pool v s
                then (s, refused model_not_ready)
                else if is_cut_off now request.dispatch_before
                then (s, refused dispatch_cutoff)
                else if epoch_refused request.expected_engine_epoch v.epoch none
                then (s, refused model_not_ready)
                else try_turn now id request pool owner s
          ])
      tried none = (before, Kept-refl s)
      tried (some v) =
          if_intro {A = Scheduler × Answer} Leaves (is_closed now pool v s) _ _
            (λ _. (before, Kept-refl s))
            λ _.
              if_intro {A = Scheduler × Answer} Leaves (is_cut_off now request.dispatch_before) _ _
                (λ _. (before, Kept-refl s))
                λ _.
                  if_intro {A = Scheduler × Answer} Leaves
                    (epoch_refused request.expected_engine_epoch v.epoch none) _ _
                    (λ _. (before, Kept-refl s))
                    λ _.
                      after_enqueue-Leaves (enqueue now request pool owner s)
                        (enqueue-Kept now s request pool owner)
