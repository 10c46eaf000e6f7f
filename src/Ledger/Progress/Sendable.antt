-- ===== src/Ledger/Progress/Sendable.antt =====
-- store.py: what `reserve_next` grants, `mark_send` can send.
use mta_runtime_intramind.Base.{
  ℕ, ◌+◌, ◌≤◌, ◌<◌, ◌≡◌, refl, Bool, true, false, Option, none, some, arith, ltb, Result, ok, err,
  OnOk-eq, ◌>>=◌,
}
use mta_runtime_intramind.Contracts.Operation.{budget_unit, budget_bound}
use mta_runtime_intramind.Table.{update}
use mta_runtime_intramind.Ledger.State.{Ledger, Clock, Budget, attempt_key}
use mta_runtime_intramind.Ledger.Budgets.{budget_of}
use mta_runtime_intramind.Ledger.Attempts.{
  Reservation, Joined, join, owned, holds, names, send_deadline, can_send, still_sendable, affords,
  charge_send, mark_send, send_intent_row,
}
use mta_runtime_intramind.Ledger.Owned.{IsJoined, IsOwned}
use mta_runtime_intramind.Ledger.Progress.Grants.{IsGranted, Reserved, reserve_next-Reserved}
use mta_runtime_intramind.Ledger.Reserve.{Draw, reserve_next}

IsJoined-join : (s : Ledger) (id : ℕ) (j : Joined) → IsJoined s id j → join s id ≡ some j
unfolding join
IsJoined-join s id j w = ground (arith, w.attempt, w.operation, w.root)

IsOwned-owned : (res : Reservation) (s : Ledger) (j : Joined) → IsOwned res s j → owned res s ≡ ok j
unfolding owned
IsOwned-owned res s j w = rw (IsJoined-join s res.attempt_id j w.joined, w.fenced) refl

-- The call returns, and does not raise.
abbrev pub returns {ℓ} : {A : Type ℓ} → Result A → Bool
returns (ok a) = true
returns (err e) = false

lt-ltb : (a b : ℕ) → a < b → ltb a b ≡ true
lt-ltb a b h = ground arith

affords-budget :
    (bound : ℕ) (o : Option Budget) (b : Budget)
    → o ≡ some b
    → b.spent + b.reserved + bound ≤ b.limit
    → affords bound o ≡ true
affords-budget bound none b e h = absurd (cc)
affords-budget bound (some x) b e h = ground arith

names_active :
    (res : Reservation) (j : Joined)
    → holds res j ≡ true
    → names j.operation.active_attempt res.attempt_id ≡ true
names_active res j h = ground arith

deadline_before :
    (j : Joined) (now : ℕ) → ltb now (send_deadline j) ≡ true → ltb now j.root.deadline ≡ true
deadline_before j now h = ground arith

module _ (granted_at now : Clock) (lease : ℕ) (res : Reservation) (s : Ledger)
    (g : IsGranted granted_at lease res s)
    (leased : ltb now.database g.row.attempt.lease_expires_at ≡ true)
    (in_time : ltb now.database (send_deadline g.row) ≡ true)
    (still_in_time : ltb now.process (send_deadline g.row) ≡ true) where
  granted-can_send : can_send now res g.row s ≡ true
  unfolding can_send
  granted-can_send = rw (g.unsent, g.executing, leased, g.wanted, g.running, in_time) refl

  granted-still_sendable : still_sendable now res g.row g.row.root g.row.operation ≡ true
  unfolding still_sendable
  granted-still_sendable =
      rw
        (
          g.running,
          g.wanted,
          deadline_before g.row now.process still_in_time,
          still_in_time,
          g.executing,
          names_active res g.row g.owned.fenced,
        )
        refl

  granted-charge_send : returns (charge_send now res g.row s) ≡ true
  unfolding charge_send
  granted-charge_send =
      rw
        (
          g.owned.joined.root,
          g.owned.joined.operation,
          granted-still_sendable,
          lt-ltb g.row.operation.attempts g.row.operation.spec.max_attempts g.tries.0,
          lt-ltb g.row.root.attempts g.row.root.spec.max_attempts g.tries.1,
          affords-budget (budget_bound g.row.operation.spec)
              (budget_of s g.row.operation.root_id (budget_unit g.row.operation.spec)) g.budget
              g.found g.covered,
        )
        refl

  granted-mark_send : returns (mark_send now res s) ≡ true
  unfolding mark_send
  granted-mark_send =
      rw (IsOwned-owned res s g.row g.owned, granted-can_send, g.free.1)
        (sent (charge_send now res g.row s) granted-charge_send)
    where
      sent :
          (m : Result Ledger)
          → returns m ≡ true
          → returns (
              m >>= λ t. ok (record t {
                attempts = update attempt_key res.attempt_id (send_intent_row now) t.attempts;
              }))
            ≡ true
      sent (ok t) h = refl
      sent (err e) h = absurd (cc)

-- Where `reserve_next` answers with a reservation, `mark_send` returns for it in the ledger that it
-- left, with no other transaction between the two, if the database's clock is before the end of the
-- attempt's lease, and both it and the process's clock are before the deadline that the reservation
-- tells.
pub reserve_next-mark_send :
    (granted_at now : Clock) (pool : ℕ) (draw : Draw) (s t : Ledger) (res : Reservation)
    → reserve_next granted_at pool draw s ≡ ok (t, some res)
    → now.database < granted_at.process + draw.lease
    → now.database < res.attempt_deadline
    → now.process < res.attempt_deadline
    → returns (mark_send now res t) ≡ true
reserve_next-mark_send granted_at now pool draw s t res e leased in_time still =
    let (moves, g) =
      OnOk-eq (Reserved granted_at draw.lease s) (reserve_next granted_at pool draw s) (t, some res)
        (reserve_next-Reserved granted_at pool draw s) e in
    granted-mark_send granted_at now draw.lease res t g
      (rw (g.leased) (lt-ltb now.database (granted_at.process + draw.lease) leased))
      (rw (g.deadline) (lt-ltb now.database res.attempt_deadline in_time))
      (rw (g.deadline) (lt-ltb now.process res.attempt_deadline still))
