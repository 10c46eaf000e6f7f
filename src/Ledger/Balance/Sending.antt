-- ===== src/Ledger/Balance/Sending.antt =====
-- `mark_send`, `heartbeat`, `compute_finished` and `unknown` keep the books.
use mta_runtime_intramind.Base.{
  ℕ, ◌≡◌, refl, sym, ap, ◌∙◌, Bool, true, false, some, arith, if_intro, ltb, ◌&&◌, ok, OnOk,
  OnOk-bind, OnOk-if, OnOk-guard, OnOk-or_raise,
}
use mta_runtime_intramind.Contracts.Operation.{budget_unit, budget_bound}
use mta_runtime_intramind.Table.{find, update}
use mta_runtime_intramind.Ledger.State.{
  Ledger, Clock, AttemptState, Reason, is_settled, is_reserved, operation_key, root_key,
}
use mta_runtime_intramind.Ledger.Budgets.{budget_of, adjust_budget}
use mta_runtime_intramind.Ledger.Attempts.{
  Reservation, Joined, owned, owner_alive, can_send, charge_send, mark_send, send_intent_row,
  reserve, count_operation_attempt, count_root_attempt, heartbeat, is_open, compute_finished,
  finish_compute, unknown, lose, wait_reconciling, affords, still_sendable,
}
use mta_runtime_intramind.Ledger.Owned.{IsOwned, owned-IsOwned}
use mta_runtime_intramind.Ledger.Balance.Invariant.{root_of, IsConsistent}
use mta_runtime_intramind.Ledger.Balance.Frame.{Frame, Frame-trans, Frame-IsConsistent}
use mta_runtime_intramind.Ledger.Balance.Quiet.{
  operations-Frame, roots-Frame, expire_operation-Frame,
}
use mta_runtime_intramind.Ledger.Balance.Relabel.{
  with_attempts, relabel-IsConsistent, assemble-IsConsistent,
}
use mta_runtime_intramind.Ledger.Balance.Rebook.{
  rebook, rebook-attempts, rebook-operations, rebook-IsBalanced, adjust-with_attempts,
}
use mta_runtime_intramind.Ledger.Balance.Settling.{adjust_budget-kept}
use mathlib.Core.Option
use mathlib.Core.Path.{subst}

reserved-open : (state : AttemptState) → is_reserved state ≡ true → is_settled state ≡ false
reserved-open state e = ground arith

module _ (c : Clock) (res : Reservation) (s : Ledger) (v : IsConsistent s) where
  pub compute_finished-IsConsistent : OnOk IsConsistent (compute_finished c res s)
  unfolding compute_finished
  compute_finished-IsConsistent =
      OnOk-bind (IsOwned res s) IsConsistent (owned res s) _ (owned-IsOwned res s) λ j w.
        if_intro IsConsistent (is_settled j.attempt.state) s _ (λ e. v)
          λ e.
            let valid = v.rows res.attempt_id j.attempt w.joined.attempt in
            relabel-IsConsistent s res.attempt_id (finish_compute c) j.attempt w.joined.attempt
              (record { operation = refl; unit = refl; bound = refl; held = refl; usage = refl })
              (λ x. refl) (λ x. refl)
              (record {
                released = λ h. absurd (cc);
                covered = λ h. absurd (cc);
                unused = λ h. valid.unused e;
              })
              v

  lost-IsConsistent :
      (reason : Reason) (j : Joined)
      → IsOwned res s j
      → is_settled j.attempt.state ≡ false
      → IsConsistent (with_attempts s res.attempt_id (lose c reason))
  lost-IsConsistent reason j w e =
      let valid = v.rows res.attempt_id j.attempt w.joined.attempt in
      relabel-IsConsistent s res.attempt_id (lose c reason) j.attempt w.joined.attempt
        (record { operation = refl; unit = refl; bound = refl; held = refl; usage = refl })
        (λ x. refl) (λ x. refl)
        (record {
          released = λ h. absurd (cc);
          covered = valid.covered;
          unused = λ h. valid.unused e;
        })
        v

  pub unknown-IsConsistent : (reason : Reason) → OnOk IsConsistent (unknown c res reason s)
  unfolding unknown
  unknown-IsConsistent reason =
      OnOk-bind (IsOwned res s) IsConsistent (owned res s) _ (owned-IsOwned res s) λ j w.
        let lost = with_attempts s res.attempt_id (lose c reason) in
        let quiet = expire_operation-Frame c j.operation.spec c.database lost in
        if_intro IsConsistent (is_settled j.attempt.state) s _ (λ e. v)
          λ e.
            let ended = Frame-IsConsistent quiet (lost-IsConsistent reason j w e) in
            if_intro IsConsistent _ _ _ (λ _. ended)
              λ _.
                Frame-IsConsistent
                  (operations-Frame _ j.attempt.operation_id (wait_reconciling reason) (λ x. refl)
                    (λ x. refl) (λ x. refl))
                  ended

  pub heartbeat-IsConsistent : (lease : ℕ) → OnOk (λ r. IsConsistent r.0) (heartbeat c lease res s)
  unfolding heartbeat
  heartbeat-IsConsistent lease =
      OnOk-bind (IsOwned res s) (λ r. IsConsistent r.0) (owned res s) _ (owned-IsOwned res s)
        λ j w.
          if_intro {A = Ledger × Bool} (λ r. IsConsistent r.0) (is_open j.attempt.state) _ _
            (λ _.
              if_intro IsConsistent (owner_alive c res.owner_id s) s _ (λ _. v)
                λ _.
                  let valid = v.rows res.attempt_id j.attempt w.joined.attempt in
                  relabel-IsConsistent s res.attempt_id _ j.attempt w.joined.attempt
                    (record {
                      operation = refl;
                      unit = refl;
                      bound = refl;
                      held = refl;
                      usage = refl;
                    })
                    (λ x. refl) (λ x. refl)
                    (record {
                      released = valid.released;
                      covered = valid.covered;
                      unused = valid.unused;
                    })
                    v)
            (λ _. v)

  -- A send that was charged earlier: only the row changes.
  sent-IsConsistent :
      (j : Joined)
      → IsOwned res s j
      → is_reserved j.attempt.state ≡ true
      → j.attempt.budget_held ≡ true
      → IsConsistent (with_attempts s res.attempt_id (send_intent_row c))
  sent-IsConsistent j w unsent held =
      let valid = v.rows res.attempt_id j.attempt w.joined.attempt in
      relabel-IsConsistent s res.attempt_id (send_intent_row c) j.attempt w.joined.attempt
        (record { operation = refl; unit = refl; bound = refl; held = sym held; usage = refl })
        (λ x. refl) (λ x. refl)
        (record {
          released = λ h. absurd (cc);
          covered = λ h. refl;
          unused = λ h. valid.unused (reserved-open j.attempt.state unsent);
        })
        v

  -- The ledger that the charge leaves, before the budget's UPDATE.
  abbrev counted : Joined → Ledger
  counted j = record s {
    operations = update operation_key j.attempt.operation_id count_operation_attempt s.operations;
    roots = update root_key j.operation.root_id count_root_attempt s.roots;
  }

  counted-Frame : (j : Joined) → Frame s (counted j)
  counted-Frame j =
      Frame-trans
        (operations-Frame s j.attempt.operation_id count_operation_attempt (λ x. refl) (λ x. refl)
          (λ x. refl))
        (roots-Frame _ j.operation.root_id count_root_attempt (λ x. refl) (λ x. refl))

  -- The ledger that `mark_send` leaves when it has charged the send.
  abbrev charged_ledger : Joined → Ledger
  charged_ledger j =
      with_attempts
        (adjust_budget j.operation.root_id (budget_unit j.operation.spec)
          (reserve (budget_bound j.operation.spec)) (counted j))
        res.attempt_id (send_intent_row c)

  charged_ledger-IsConsistent :
      (j : Joined)
      → IsOwned res s j
      → is_reserved j.attempt.state ≡ true
      → j.attempt.budget_held ≡ false
      → IsConsistent (charged_ledger j)
  charged_ledger-IsConsistent j w unsent free =
      let a = j.attempt in
      let t = counted j in
      let u = counted-Frame j in
      let unit = budget_unit j.operation.spec in
      let f = reserve (budget_bound j.operation.spec) in
      let root = j.operation.root_id in
      let g = send_intent_row c in
      let found = w.joined.attempt in
      let valid = v.rows res.attempt_id a found in
      let priced =
        v.priced res.attempt_id a found j.operation.spec
          (ap (Option.map (λ o. o.spec)) w.joined.operation) in
      let drawn : root_of t.operations a.operation_id ≡ some root =
        u.roots a.operation_id ∙ ap (Option.map (λ o. o.root_id)) w.joined.operation in
      subst IsConsistent (adjust-with_attempts t res.attempt_id g root unit f) (
        assemble-IsConsistent t (rebook t res.attempt_id g root unit f) res.attempt_id g a found
          (λ x. refl) (λ x. refl)
          (rebook-attempts t res.attempt_id a g root unit f found priced.1 drawn refl refl)
          (rebook-operations t res.attempt_id a g root unit f found priced.1 drawn refl refl)
          (λ r e. adjust_budget-kept root r unit f _ e)
          (rebook-IsBalanced t res.attempt_id a g root unit f found priced.1 drawn refl refl
            (λ b covered. ground (arith, priced.0)) (Frame-IsConsistent u v).balanced)
          (record {
            released = λ h. absurd (cc);
            covered = λ h. refl;
            unused = λ h. valid.unused (reserved-open a.state unsent);
          })
          (λ spec e. (Frame-IsConsistent u v).priced res.attempt_id a found spec e)
          (Frame-IsConsistent u v))

  charge_send-IsConsistent :
      (j : Joined)
      → IsOwned res s j
      → is_reserved j.attempt.state ≡ true
      → j.attempt.budget_held ≡ false
      → OnOk
          (λ s'. IsConsistent (with_attempts s' res.attempt_id (send_intent_row c)))
          (charge_send c res j s)
  unfolding charge_send
  charge_send-IsConsistent j w unsent free =
      let P = λ (s' : Ledger). IsConsistent (with_attempts s' res.attempt_id (send_intent_row c)) in
      OnOk-or_raise P (find root_key j.operation.root_id s.roots) _ _ λ root _.
        OnOk-or_raise P (find operation_key j.attempt.operation_id s.operations) _ _ λ o _.
          OnOk-guard P (still_sendable c res j root o) _ _ λ _.
            OnOk-guard P
              (ltb o.attempts j.operation.spec.max_attempts
                && ltb root.attempts root.spec.max_attempts)
              _ _
              λ _.
                OnOk-guard P
                  (affords (budget_bound j.operation.spec)
                    (budget_of s j.operation.root_id (budget_unit j.operation.spec)))
                  _ _ λ _. charged_ledger-IsConsistent j w unsent free

  sendable-reserved : (j : Joined) → can_send c res j s ≡ true → is_reserved j.attempt.state ≡ true
  unfolding can_send
  sendable-reserved j h = ground arith

  pub mark_send-IsConsistent : OnOk IsConsistent (mark_send c res s)
  unfolding mark_send
  mark_send-IsConsistent =
      OnOk-bind (IsOwned res s) IsConsistent (owned res s) _ (owned-IsOwned res s) λ j w.
        OnOk-guard IsConsistent (can_send c res j s) _ _ λ sendable.
          OnOk-bind (λ s'. IsConsistent (with_attempts s' res.attempt_id (send_intent_row c)))
            IsConsistent _ _
            (OnOk-if _ j.attempt.budget_held (ok s) (charge_send c res j s)
              (λ held. sent-IsConsistent j w (sendable-reserved j sendable) held)
              (λ free. charge_send-IsConsistent j w (sendable-reserved j sendable) free))
            (λ s' done. done)
