-- ===== src/Scheduler/Reserving.antt =====
-- memory_scheduler.py: what waits takes no capacity, and what is granted fits it.
use mta_runtime_intramind.Base.{
  ℕ, ◌≡◌, ap, ◌∙◌, Bool, true, false, not, ◌&&◌, ◌||◌, Option, none, some, leb, ◌==◌, arith,
  decides, select, if◌then◌else◌, if_intro, Result, ok, err, OnOk, OnOk-bind, OnOk-if, OnOk-guard,
  OnOk-raise_if, OnOk-or_raise, guard, raise_if, ◌>>◌, runtime_conflict, waiting_identity_conflict,
  already_accepted,
}
use mta_runtime_intramind.Table.{find}
use mta_runtime_intramind.Scheduler.State.{
  DirectRequest, DirectRequest-discrete, DirectReservation, PoolView, Waiter, Known, Scheduler, Now,
  view_key, waiter_key, known_key, try_acquire,
}
use mta_runtime_intramind.Scheduler.Queue.{
  remove_waiter, first, validate, waiter_of, was_for, latest, accepted_before, enqueue_new, enqueue,
  leave,
}
use mta_runtime_intramind.Scheduler.Direct.{
  is_waiter, take_turn, turn_of, reserve_for, reserve, generation_for, epoch_refused, not_ready,
  direct_reservation,
}
use mta_runtime_intramind.Scheduler.Trying.{
  Answer, refused, model_not_ready, dispatch_cutoff, is_closed, is_cut_off, forget, after_reserve,
  after_enqueue, try_turn, try_reserve,
}
use mta_runtime_intramind.Scheduler.Capacity.{
  Kept, Kept-refl, add_waiter-Kept, remove_waiter-Kept, first_of-Kept, WithinCapacity,
  granted-WithinCapacity,
}

-- Every pool has no more permits in force than it allows.
abbrev pub FitsCapacity : Scheduler → Type 0
FitsCapacity s = WithinCapacity s.pools s.permits

pub Kept-FitsCapacity : (s t : Scheduler) → Kept s t → FitsCapacity s → FitsCapacity t
Kept-FitsCapacity s t k v = rw (k.permits, k.pools) v

pub anything : {A : Type 0} (m : Result A) → OnOk (λ _. Unit {0}) m
anything (ok a) = tt
anything (err e) = tt

module _ (now : Now) (s : Scheduler) where
  enqueue_new-Kept :
      (request : DirectRequest) (pool owner : ℕ) (v : PoolView)
      → OnOk (λ x. Kept s x.0) (enqueue_new now request pool owner v s)
  unfolding enqueue_new
  enqueue_new-Kept request pool owner v =
      OnOk-raise_if (λ x. Kept s x.0) (leb request.deadline now.wall) _ _
        λ _.
          OnOk-raise_if (λ x. Kept s x.0)
            (leb s.endpoint_limit (s.queue_counts pool)
              || leb s.tenant_limit (s.tenant_counts pool request.tenant_id))
            _ _
            λ _.
              OnOk-bind (λ _. Unit {0}) (λ x. Kept s x.0) (validate request v) _ (anything _)
                λ _ _.
                  (let added = add_waiter-Kept (waiter_of now request pool owner) s in
                    record { permits = added.permits; pools = added.pools })

  pub enqueue-Kept :
      (request : DirectRequest) (pool owner : ℕ)
      → OnOk (λ x. Kept s x.0) (enqueue now request pool owner s)
  unfolding enqueue
  enqueue-Kept request pool owner =
      OnOk-or_raise (λ x. Kept s x.0) (find view_key pool s.pools) _ _
        λ v _. known v (find known_key request.request_id s.request_identity)
    where
      waiting :
          (v : PoolView) (o : Option Waiter)
          → OnOk
              (λ x. Kept s x.0)
              (elim o as (λ x. Result (Scheduler × ℕ)) [
                | some w ↦ ok (s, w.queued_at)
                | none ↦
                    (raise_if
                        (accepted_before (latest (select (was_for request.request_id) s.permits)))
                        (runtime_conflict already_accepted)
                      >> enqueue_new now request pool owner v s)
              ])
      waiting v (some w) = Kept-refl s
      waiting v none =
          OnOk-raise_if (λ x. Kept s x.0)
            (accepted_before (latest (select (was_for request.request_id) s.permits))) _ _
            λ _. enqueue_new-Kept request pool owner v

      known :
          (v : PoolView) (o : Option Known)
          → OnOk
              (λ x. Kept s x.0)
              (elim o as (λ x. Result (Scheduler × ℕ)) [
                | none ↦ enqueue_new now request pool owner v s
                | some old ↦
                    (guard
                        (decides (DirectRequest-discrete old.request request)
                          && old.owner_id == owner)
                        (runtime_conflict waiting_identity_conflict)
                      >> elim (find waiter_key request.request_id s.waiters)
                          as (λ x. Result (Scheduler × ℕ)) [
                            | some w ↦ ok (s, w.queued_at)
                            | none ↦
                                (raise_if
                                    (accepted_before
                                      (latest (select (was_for request.request_id) s.permits)))
                                    (runtime_conflict already_accepted)
                                  >> enqueue_new now request pool owner v s)
                          ])
              ])
      known v none = enqueue_new-Kept request pool owner v
      known v (some old) =
          OnOk-guard (λ x. Kept s x.0)
            (decides (DirectRequest-discrete old.request request) && old.owner_id == owner) _ _
            λ _. waiting v (find waiter_key request.request_id s.waiters)

  pub leave-Kept : (identity owner : ℕ) → Kept s (leave identity owner s)
  unfolding leave
  leave-Kept identity owner = left (find waiter_key identity s.waiters)
    where
      left :
          (o : Option Waiter)
          → Kept s (elim o as (λ x. Scheduler) [
            | none ↦ s
            | some w ↦ if w.owner_id == owner then remove_waiter identity s else s
          ])
      left none = Kept-refl s
      left (some w) =
          if_intro (Kept s) (w.owner_id == owner) _ _ (λ _. remove_waiter-Kept identity s)
            (λ _. Kept-refl s)

  module _ (fits : FitsCapacity s) where
    take_turn-FitsCapacity :
        (r : DirectReservation) (v : PoolView) (w : Waiter)
        → find view_key r.pool_id s.pools ≡ some v
        → FitsCapacity (take_turn now r v w s).0
    unfolding take_turn first
    take_turn-FitsCapacity r v w found =
        let (s', head) = first now r.pool_id s in
        let kept = first_of-Kept now r.pool_id s.queues s in
        let gone = remove_waiter-Kept r.request.request_id s' in
        let fits' = Kept-FitsCapacity s s' kept fits in
        if_intro {A = Scheduler × Option DirectReservation} (λ x. FitsCapacity x.0)
          (not (is_waiter w head)
            || not (try_acquire v s'.permits s'.pools r.request.workload_class))
          _ _ (λ _. fits')
          λ h.
            let granted =
              granted-WithinCapacity s'.pools s'.permits v r
                (ap (find view_key r.pool_id) kept.pools ∙ found)
                (acquired (not (is_waiter w head))
                  (try_acquire v s'.permits s'.pools r.request.workload_class) h)
                fits' in
            rw (gone.permits, gone.pools) granted
      where
        acquired : (x y : Bool) → (x || not y) ≡ false → y ≡ true
        acquired x y h = ground arith

    pub reserve-FitsCapacity :
        (id : ℕ) (request : DirectRequest) (pool owner : ℕ) (previous : Option ℕ)
        → OnOk (λ x. FitsCapacity x.0) (reserve now id request pool owner previous s)
    unfolding reserve
    reserve-FitsCapacity id request pool owner previous =
        OnOk-or_raise (λ x. FitsCapacity x.0) (find view_key pool s.pools) _ _
          λ v found. turn v found (find waiter_key request.request_id s.waiters)
      where
        generated :
            (v : PoolView) (w : Waiter) (g : Option ℕ)
            → find view_key pool s.pools ≡ some v
            → FitsCapacity (turn_of now id request pool owner v w s g).0
        generated v w none found = fits
        generated v w (some g) found =
            take_turn-FitsCapacity (direct_reservation id request pool owner v g) v w found

        turn :
            (v : PoolView)
            → find view_key pool s.pools ≡ some v
            → (o : Option Waiter)
            → OnOk (λ x. FitsCapacity x.0) (reserve_for now id request pool owner previous v s o)
        turn v found none = fits
        turn v found (some w) =
            OnOk-if (λ x. FitsCapacity x.0)
              (not (w.owner_id == owner)
                || leb request.deadline now.wall
                || not s.control_ready
                || not_ready now (s.ready_by_pool pool))
              _ _ (λ _. fits)
              λ _.
                OnOk-bind (λ _. Unit {0}) (λ x. FitsCapacity x.0) (validate request v) _
                  (anything _)
                  λ _ _.
                    OnOk-raise_if (λ x. FitsCapacity x.0)
                      (epoch_refused request.expected_engine_epoch v.epoch previous) _ _
                      λ _.
                        OnOk-bind (λ _. Unit {0}) (λ x. FitsCapacity x.0)
                          (generation_for request pool owner v s previous) _ (anything _)
                          λ g _. generated v w g found

pub forget-Kept : (pool identity : ℕ) (s : Scheduler) → Kept s (forget pool identity s)
unfolding forget
forget-Kept pool identity s =
    let gone = remove_waiter-Kept identity s in
    record { permits = gone.permits; pools = gone.pools }

module _ (now : Now) (id : ℕ) (request : DirectRequest) (pool owner : ℕ) where
  after_reserve-FitsCapacity :
      (s : Scheduler) (m : Result (Scheduler × Option DirectReservation))
      → FitsCapacity s
      → OnOk (λ x. FitsCapacity x.0) m
      → FitsCapacity (after_reserve pool request.request_id s m).0
  after_reserve-FitsCapacity s (err e) fits h =
      Kept-FitsCapacity s _ (forget-Kept pool request.request_id s) fits
  after_reserve-FitsCapacity s (ok (t, none)) fits h =
      Kept-FitsCapacity t _ (forget-Kept pool request.request_id t) h
  after_reserve-FitsCapacity s (ok (t, some r)) fits h = h

  after_enqueue-FitsCapacity :
      (s : Scheduler) (m : Result (Scheduler × ℕ))
      → FitsCapacity s
      → OnOk (λ x. Kept s x.0) m
      → FitsCapacity (after_enqueue now id request pool owner s m).0
  after_enqueue-FitsCapacity s (err e) fits h =
      Kept-FitsCapacity s _ (forget-Kept pool request.request_id s) fits
  after_enqueue-FitsCapacity s (ok (t, at)) fits h =
      let fits' = Kept-FitsCapacity s t h fits in
      after_reserve-FitsCapacity t (reserve now id request pool owner none t) fits'
        (reserve-FitsCapacity now t fits' id request pool owner none)

  pub try_reserve-FitsCapacity :
      (s : Scheduler) → FitsCapacity s → FitsCapacity (try_reserve now id request pool owner s).0
  unfolding try_reserve try_turn
  try_reserve-FitsCapacity s fits = tried (find view_key pool s.pools)
    where
      tried :
          (o : Option PoolView)
          → FitsCapacity
              (elim o as (λ x. Scheduler × Answer) [
                | none ↦ (s, refused model_not_ready)
                | some v ↦
                    if is_closed now pool v s
                    then (s, refused model_not_ready)
                    else if is_cut_off now request.dispatch_before
                    then (s, refused dispatch_cutoff)
                    else if epoch_refused request.expected_engine_epoch v.epoch none
                    then (s, refused model_not_ready)
                    else try_turn now id request pool owner s
              ]).0
      tried none = fits
      tried (some v) =
          if_intro {A = Scheduler × Answer} (λ x. FitsCapacity x.0) (is_closed now pool v s) _ _
            (λ _. fits)
            λ _.
              if_intro {A = Scheduler × Answer} (λ x. FitsCapacity x.0)
                (is_cut_off now request.dispatch_before) _ _ (λ _. fits)
                λ _.
                  if_intro {A = Scheduler × Answer} (λ x. FitsCapacity x.0)
                    (epoch_refused request.expected_engine_epoch v.epoch none) _ _ (λ _. fits)
                    λ _.
                      after_enqueue-FitsCapacity s (enqueue now request pool owner s) fits
                        (enqueue-Kept now s request pool owner)
