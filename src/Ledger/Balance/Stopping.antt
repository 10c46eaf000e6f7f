-- ===== src/Ledger/Balance/Stopping.antt =====
-- The settlement of stopped attempts keeps the books: `_settle_stopped_attempt` and its callers.
use mta_runtime_intramind.Base.{
  ℕ, ◌≡◌, refl, sym, ap, ◌∙◌, Bool, true, false, none, some, arith, ==_refl, if_intro, OnOk,
  OnOk-bind, Bool-cases, inl, inr,
}
use mta_runtime_intramind.Contracts.Operation.{budget_unit}
use mta_runtime_intramind.Table.{find, update, find-update}
use mta_runtime_intramind.Ledger.State.{
  Ledger, Clock, Attempt, Operation, Reason, is_settled, is_terminal, root_key, attempt_key,
}
use mta_runtime_intramind.Ledger.Budgets.{budget_of}
use mta_runtime_intramind.Ledger.Attempts.{Joined}
use mta_runtime_intramind.Ledger.Stopping.{
  stopped_row, can_retry, retry_operation, after_stop, settle_stopped_attempt,
}
use mta_runtime_intramind.Ledger.Balance.Invariant.{root_of, spec_of, IsValidAttempt, IsConsistent}
use mta_runtime_intramind.Ledger.Balance.Columns.{budget_of-eq}
use mta_runtime_intramind.Ledger.Balance.Frame.{Frame, Frame-refl, Frame-IsConsistent}
use mta_runtime_intramind.Ledger.Balance.Quiet.{operations-Frame, terminal-Frame}
use mta_runtime_intramind.Ledger.Balance.Relabel.{with_attempts}
use mta_runtime_intramind.Ledger.Balance.Settling.{Settled, settle-Settled}
use mta_runtime_intramind.Ledger.Balance.Ending.{ended-IsConsistent, found_last}
use mta_runtime_intramind.Ledger.Balance.Turns.{IsFresh, Turned, Settled-Turned}
use mathlib.Core.Option

-- A statement on tables that the books do not read.
pub aside-Frame :
    (s t : Ledger)
    → t.roots ≡ s.roots
    → t.budgets ≡ s.budgets
    → t.operations ≡ s.operations
    → t.attempts ≡ s.attempts
    → Frame s t
aside-Frame s t roots budgets operations attempts = record {
  budgets = λ root unit. budget_of-eq s t root unit roots budgets;
  attempts = attempts;
  roots = λ id. ap (λ os. root_of os id) operations;
  specs = λ id. ap (λ os. spec_of os id) operations;
  kept = λ root e. ap (find root_key root) (sym roots) ∙ e;
}

retry_operation-key :
    (c : Clock) (old : ℕ) (reason : Reason) (o : Operation)
    → (retry_operation c old reason o).operation_id ≡ o.operation_id
retry_operation-key c old reason o = ground arith

retry_operation-root :
    (c : Clock) (old : ℕ) (reason : Reason) (o : Operation)
    → (retry_operation c old reason o).root_id ≡ o.root_id
retry_operation-root c old reason o = ground arith

retry_operation-spec :
    (c : Clock) (old : ℕ) (reason : Reason) (o : Operation)
    → (retry_operation c old reason o).spec ≡ o.spec
retry_operation-spec c old reason o = ground arith

after_stop-Frame :
    (c : Clock) (recover : Bool) (error retry : Reason) (j : Joined) (s : Ledger)
    → Frame s (after_stop c recover error retry j s)
unfolding after_stop
after_stop-Frame c recover error retry j s =
    if_intro (Frame s) (is_terminal j.operation.state) _ _ (λ _. Frame-refl s)
      λ _.
        if_intro (Frame s)
          (can_retry c recover j (find root_key j.operation.root_id s.roots)
            (budget_of s j.operation.root_id (budget_unit j.operation.spec)))
          _ _
          (λ _.
            let f = retry_operation c j.attempt.attempt_id retry in
            operations-Frame s j.attempt.operation_id f
              (retry_operation-key c j.attempt.attempt_id retry)
              (retry_operation-root c j.attempt.attempt_id retry)
              (retry_operation-spec c j.attempt.attempt_id retry))
          (λ _. terminal-Frame c j.attempt.operation_id _ _ s)

-- An attempt that holds budget has no usage yet.
pub held-unused : (a : Attempt) → IsValidAttempt a → a.budget_held ≡ true → a.usage ≡ none
held-unused a v held = elim (Bool-cases (is_settled a.state)) [
  | inr open_state ↦ v.unused open_state
  | inl settled ↦ absurd (cc ((v.released settled).1))
]

-- The row of a stopped attempt holds nothing any more.
abbrev pub HoldsNothing : ℕ → Ledger → Type 0
HoldsNothing id t =
    (a : Attempt)
    → find attempt_key id t.attempts ≡ some a
    → (a.compute_held ≡ false) × (a.budget_held ≡ false)

module _ (c : Clock) (recover : Bool) (error retry : Reason) (j : Joined) (s : Ledger)
    (v : IsConsistent s) (fresh : IsFresh s j) where
  stopped-IsConsistent :
      (t : Ledger)
      → Settled j.attempt s t
      → IsConsistent (with_attempts t j.attempt.attempt_id (stopped_row c error))
  stopped-IsConsistent t settled =
      ended-IsConsistent s t j.attempt (stopped_row c error) fresh.found settled
        (record { operation = refl; unit = refl; bound = refl; held = refl; usage = refl })
        (λ x. refl) (λ x. refl)
        (record {
          released = λ h. (refl, settled.row_budget);
          covered = λ h. absurd (cc);
          unused = λ h. absurd (cc);
        })
        v

  stopped-HoldsNothing :
      (t u : Ledger)
      → Settled j.attempt s t
      → u.attempts ≡ update attempt_key j.attempt.attempt_id (stopped_row c error) t.attempts
      → HoldsNothing j.attempt.attempt_id u
  stopped-HoldsNothing t u settled attempts a e =
      let id = j.attempt.attempt_id in
      let row : find attempt_key id u.attempts
          ≡ some (stopped_row c error (settled.row j.attempt)) =
        ap (find attempt_key id) attempts
        ∙ find-update attempt_key id id (stopped_row c error) t.attempts (λ x. refl)
        ∙ rw (==_refl id) (
            ap (Option.map (stopped_row c error))
              (found_last s t j.attempt (stopped_row c error) fresh.found settled)) in
      let same : stopped_row c error (settled.row j.attempt) ≡ a = cc in
      (ap (λ x. x.compute_held) (sym same), ap (λ x. x.budget_held) (sym same) ∙ settled.row_budget)

  pub settle_stopped_attempt-Turned :
      OnOk
        (λ t. Turned s j t × HoldsNothing j.attempt.attempt_id t)
        (settle_stopped_attempt c recover error retry j s)
  unfolding settle_stopped_attempt
  settle_stopped_attempt-Turned =
      OnOk-bind (Settled j.attempt s) (λ t. Turned s j t × HoldsNothing j.attempt.attempt_id t) _ _
        (settle-Settled c j.attempt j.operation.root_id s fresh.found fresh.drawn v.balanced _
          (held-unused j.attempt (v.rows j.attempt.attempt_id j.attempt fresh.found)))
        λ t settled.
          let after = with_attempts t j.attempt.attempt_id (stopped_row c error) in
          let frame = after_stop-Frame c recover error retry j after in
          (
            Settled-Turned s t (after_stop c recover error retry j after) j (stopped_row c error)
                settled (λ x. refl) frame
                (Frame-IsConsistent frame (stopped-IsConsistent t settled)),
            stopped-HoldsNothing t (after_stop c recover error retry j after) settled
                frame.attempts,
          )
