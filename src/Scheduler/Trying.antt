-- ===== src/Scheduler/Trying.antt =====
-- memory_scheduler.py: `try_reserve`, which does not wait. `_remove_waiter` and what follows it in
-- the `finally` is `forget`; a scheduler that a raised exception leaves is given with it.
use mta_runtime_intramind.Base.{
  ℕ, Bool, true, false, not, ◌&&◌, ◌||◌, Option, none, some, leb, ◌==◌, if◌then◌else◌, select,
  Error, runtime_conflict, send_budget, admission_denied, not_found, value_error, integrity_error,
  Result, ok, err,
}
use mta_runtime_intramind.Table.{find, remove}
use mta_runtime_intramind.Ledger.Reserve.{is_healthy}
use mta_runtime_intramind.Scheduler.State.{
  DirectRequest, DirectReservation, PoolView, Entry, Scheduler, Now, view_key, known_key,
}
use mta_runtime_intramind.Scheduler.Queue.{remove_waiter, enqueue}
use mta_runtime_intramind.Scheduler.Direct.{reserve, not_ready, epoch_refused}

pub data Refusal : Type 0 where
  model_not_ready dispatch_cutoff inference_capacity : Refusal

pub data Answer : Type 0 where
  granted : DirectReservation → Answer
  refused : Refusal → Answer
  raised : Error → Answer

abbrev pub is_closed : Now → ℕ → PoolView → Scheduler → Bool
is_closed now pool v s =
    not s.control_ready
    || not (is_healthy v.health)
    || not (is_healthy v.group_health)
    || leb v.target 0
    || not_ready now (s.ready_by_pool pool)

abbrev pub is_cut_off : Now → Option ℕ → Bool
is_cut_off now none = false
is_cut_off now (some at) = leb at now.wall

abbrev pub stands_in : ℕ → ℕ → Entry → Bool
stands_in pool identity e = e.pool_id == pool && e.identity == identity

-- What the `finally` does without a reservation.
unfoldable pub forget : ℕ → ℕ → Scheduler → Scheduler
unfolding remove_waiter remove
forget pool identity s =
    let t = remove_waiter identity s in
    record t {
      request_identity = remove known_key identity t.request_identity;
      queues = select (λ e. not (stands_in pool identity e)) t.queues;
    }

-- `except AdmissionDenied`
abbrev pub answer_to : Error → Answer
answer_to (admission_denied detail true) = refused inference_capacity
answer_to (admission_denied detail false) = raised (admission_denied detail false)
answer_to (runtime_conflict detail) = raised (runtime_conflict detail)
answer_to (send_budget detail) = raised (send_budget detail)
answer_to (not_found detail) = raised (not_found detail)
answer_to (value_error detail) = raised (value_error detail)
answer_to integrity_error = raised integrity_error

abbrev pub after_reserve :
    ℕ → ℕ → Scheduler → Result (Scheduler × Option DirectReservation) → Scheduler × Answer
after_reserve pool identity s (err e) = (forget pool identity s, raised e)
after_reserve pool identity s (ok (t, none)) = (forget pool identity t, refused inference_capacity)
after_reserve pool identity s (ok (t, some r)) = (t, granted r)

abbrev pub after_enqueue :
    Now → ℕ → DirectRequest → ℕ → ℕ → Scheduler → Result (Scheduler × ℕ) → Scheduler × Answer
after_enqueue now id request pool owner s (err e) = (forget pool request.request_id s, answer_to e)
after_enqueue now id request pool owner s (ok (t, at)) =
    after_reserve pool request.request_id t (reserve now id request pool owner none t)

-- The `try` and its `finally`.
unfoldable pub try_turn : Now → ℕ → DirectRequest → ℕ → ℕ → Scheduler → Scheduler × Answer
unfolding enqueue reserve forget
try_turn now id request pool owner s =
    after_enqueue now id request pool owner s (enqueue now request pool owner s)

-- `try_reserve`; `id` is the UUID drawn for the attempt
unfoldable pub try_reserve : Now → ℕ → DirectRequest → ℕ → ℕ → Scheduler → Scheduler × Answer
unfolding try_turn
try_reserve now id request pool owner s = elim (find view_key pool s.pools) [
  | none ↦ (s, refused model_not_ready)
  | some v ↦
      if is_closed now pool v s
      then (s, refused model_not_ready)
      else if is_cut_off now request.dispatch_before
      then (s, refused dispatch_cutoff)
      else if epoch_refused request.expected_engine_epoch v.epoch none
      then (s, refused model_not_ready)
      else try_turn now id request pool owner s
]
