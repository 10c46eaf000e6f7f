-- ===== src/Scheduler/Histories.antt =====
-- memory_scheduler.py: no sequence of turns exceeds the capacity of a pool.
use mta_runtime_intramind.Base.{
  ℕ, ◌≡◌, refl, true, ◌&&◌, Option, List, [], ◌∷◌, ltb, if_intro, Result, ok, err, OnOk, OnOk-bind,
  OnOk-guard, OnOk-raise_if,
}
use mta_runtime_intramind.Table.{update}
use mta_runtime_intramind.Scheduler.State.{
  DirectReservation, Permit, PermitState, Scheduler, Now, permit_key,
}
use mta_runtime_intramind.Scheduler.Queue.{enqueue}
use mta_runtime_intramind.Scheduler.Direct.{
  direct, reserve, with_state, mark_send, is_reserved, heartbeat, is_completed, released, finish,
  lost, unknown,
}
use mta_runtime_intramind.Scheduler.Reserving.{
  FitsCapacity, Kept-FitsCapacity, anything, enqueue-Kept, leave-Kept, reserve-FitsCapacity,
  try_reserve-FitsCapacity,
}
use mta_runtime_intramind.Scheduler.Turns.{
  Call, enqueues, leaves, reserves, marks_send, beats, loses, finishes, tries, scheduler_of,
  perform, after, run,
}
use mta_runtime_intramind.Scheduler.Capacity.{Kept, update-WithinCapacity}

module _ (now : Now) (s : Scheduler) (fits : FitsCapacity s) where
  updated-FitsCapacity :
      (k : ℕ) (f : Permit → Permit)
      → ((x : Permit) → (f x).pool_id ≡ x.pool_id)
      → ((x : Permit) → (f x).workload_class ≡ x.workload_class)
      → ((x : Permit) → (f x).is_held ≡ true → x.is_held ≡ true)
      → FitsCapacity (record s { permits = update permit_key k f s.permits })
  updated-FitsCapacity k f pool class held =
      update-WithinCapacity k f s.pools s.permits pool class held fits

  perform-FitsCapacity : (call : Call) → OnOk FitsCapacity (perform now call s)
  unfolding perform mark_send heartbeat finish unknown
  perform-FitsCapacity (enqueues request pool owner) =
      kept (enqueue now request pool owner s) (enqueue-Kept now s request pool owner)
    where
      kept :
          (m : Result (Scheduler × ℕ))
          → OnOk (λ x. Kept s x.0) m
          → OnOk FitsCapacity (scheduler_of m)
      kept (ok x) k = Kept-FitsCapacity s x.0 k fits
      kept (err e) k = tt
  perform-FitsCapacity (leaves request owner) =
      Kept-FitsCapacity s _ (leave-Kept now s request owner) fits
  perform-FitsCapacity (reserves id request pool owner previous) =
      kept (reserve now id request pool owner previous s)
        (reserve-FitsCapacity now s fits id request pool owner previous)
    where
      kept :
          (m : Result (Scheduler × Option DirectReservation))
          → OnOk (λ x. FitsCapacity x.0) m
          → OnOk FitsCapacity (scheduler_of m)
      kept (ok x) k = k
      kept (err e) k = tt
  perform-FitsCapacity (marks_send r) =
      OnOk-bind (λ _. Unit {0}) FitsCapacity (direct r s) _ (anything _)
        λ p _.
          OnOk-guard FitsCapacity
            (is_reserved p.state && p.is_held && ltb now.wall r.request.deadline) _ _
            λ _.
              updated-FitsCapacity r.attempt_id (with_state PermitState.send_intent) (λ x. refl)
                (λ x. refl) (λ x h. h)
  perform-FitsCapacity (tries id request pool owner) =
      try_reserve-FitsCapacity now id request pool owner s fits
  perform-FitsCapacity (beats r) =
      OnOk-bind (λ _. Unit {0}) FitsCapacity (heartbeat now r s) _ (anything _) λ _ _. fits
  perform-FitsCapacity (loses r) =
      OnOk-bind (λ _. Unit {0}) FitsCapacity (direct r s) _ (anything _)
        λ p _.
          if_intro FitsCapacity p.is_held _ _
            (λ _. updated-FitsCapacity r.attempt_id (lost now) (λ x. refl) (λ x. refl) (λ x h. h))
            (λ _. fits)
  perform-FitsCapacity (finishes r evidence) =
      OnOk-bind (λ _. Unit {0}) FitsCapacity (direct r s) _ (anything _)
        λ p _. OnOk-raise_if FitsCapacity (is_completed evidence && is_reserved p.state) _ _ λ _.
          if_intro FitsCapacity p.is_held _ _
            (λ _.
              updated-FitsCapacity r.attempt_id (released evidence) (λ x. refl) (λ x. refl)
                (λ x h. absurd (cc)))
            (λ _. fits)

after-FitsCapacity :
    (s : Scheduler) (m : Result Scheduler)
    → FitsCapacity s
    → OnOk FitsCapacity m
    → FitsCapacity (after s m)
after-FitsCapacity s (ok t) fits h = h
after-FitsCapacity s (err e) fits h = fits

-- Whatever requests come, wait, leave, are granted, sent, lost or finished, and in whatever order,
-- a scheduler whose pools have no more permits in force than they allow keeps it so: each pool
-- within its transport limit, or where it is no completion pool within its target and its hard
-- ceiling, and each completion pool within its limit for work that is not `qa`.
pub run-FitsCapacity :
    (calls : List (Now × Call)) (s : Scheduler) → FitsCapacity s → FitsCapacity (run calls s)
unfolding run
run-FitsCapacity [] s fits = fits
run-FitsCapacity ((now, call) ∷ calls) s fits =
    run-FitsCapacity calls (after s (perform now call s))
      (after-FitsCapacity s (perform now call s) fits (perform-FitsCapacity now s fits call))
