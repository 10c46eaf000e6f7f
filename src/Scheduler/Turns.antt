-- ===== src/Scheduler/Turns.antt =====
-- memory_scheduler.py: the turns that callers make of the scheduler, one after the other: it runs
-- on one event loop, and none of these calls awaits.
use mta_runtime_intramind.Base.{ℕ, Option, List, [], ◌∷◌, Result, ok, err, ◌>>=◌}
use mta_runtime_intramind.Scheduler.State.{DirectRequest, DirectReservation, Scheduler, Now}
use mta_runtime_intramind.Scheduler.Queue.{enqueue, leave}
use mta_runtime_intramind.Scheduler.Trying.{try_reserve}
use mta_runtime_intramind.Scheduler.Direct.{
  Evidence, reserve, mark_send, heartbeat, finish, unknown,
}

pub data Call : Type 0 where
  -- request, pool and owner
  enqueues : DirectRequest → ℕ → ℕ → Call
  -- request and owner
  leaves : ℕ → ℕ → Call
  -- the UUID that is drawn, request, pool, owner and the attempt that is recovered
  reserves : ℕ → DirectRequest → ℕ → ℕ → Option ℕ → Call
  marks_send beats loses : DirectReservation → Call
  finishes : DirectReservation → Evidence → Call
  -- the UUID that is drawn, request, pool and owner
  tries : ℕ → DirectRequest → ℕ → ℕ → Call

abbrev pub scheduler_of : {A : Type 0} → Result (Scheduler × A) → Result Scheduler
scheduler_of m = m >>= λ x. ok x.0

unfoldable pub perform : Now → Call → Scheduler → Result Scheduler
unfolding enqueue leave reserve mark_send heartbeat finish unknown try_reserve
perform now (enqueues request pool owner) s = scheduler_of (enqueue now request pool owner s)
perform now (leaves request owner) s = ok (leave request owner s)
perform now (reserves id request pool owner previous) s =
    scheduler_of (reserve now id request pool owner previous s)
perform now (marks_send r) s = mark_send now r s
perform now (beats r) s = heartbeat now r s >>= λ alive. ok s
perform now (loses r) s = unknown now r s
perform now (finishes r evidence) s = finish r evidence s
perform now (tries id request pool owner) s = ok (try_reserve now id request pool owner s).0

-- A call that raises leaves the scheduler as it was; `tries` gives what it leaves itself.
abbrev pub after : Scheduler → Result Scheduler → Scheduler
after s (ok t) = t
after s (err e) = s

unfoldable pub run : List (Now × Call) → Scheduler → Scheduler
run [] s = s
run ((now, call) ∷ calls) s = run calls (after s (perform now call s))
