-- ===== src/Ledger/Balance/Reconciling.antt =====
-- `reconcile_expired` keeps the books.
use mta_runtime_intramind.Base.{
  ℕ, ◌≡◌, refl, sym, ap, ◌∙◌, Bool, true, false, Option, none, some, List, [], ◌∷◌, arith,
  if◌then◌else◌, if_intro, select, map, ok, ◌>>=◌, OnOk, OnOk-map, OnOk-bind, OnOk-if,
}
use mta_runtime_intramind.Base.Int.{pos}
use mta_runtime_intramind.Contracts.Operation.{
  BudgetUnit, tokens, speech_characters, embedding_characters,
}
use mta_runtime_intramind.Contracts.Pool.{PoolSpec}
use mta_runtime_intramind.Table.{find, update, update_where, find-update, find-update_where}
use mta_runtime_intramind.Table.Distinct.{All, All-map, All-select, All-chosen, Distinct-select}
use mta_runtime_intramind.Ledger.State.{
  Ledger, Clock, Root, Operation, OperationState, Attempt, Reason, Pool, is_settled, is_reserved,
  operation_deadline_exceeded, deadline_exceeded, root_terminal, root_key, attempt_key,
  operation_key,
}
use mta_runtime_intramind.Ledger.Budgets.{budget_of}
use mta_runtime_intramind.Ledger.Settle.{settle}
use mta_runtime_intramind.Ledger.Attempts.{Joined, is_open}
use mta_runtime_intramind.Ledger.Events.{terminal}
use mta_runtime_intramind.Ledger.Runs.{end_each}
use mta_runtime_intramind.Ledger.Stopping.{joined_rows, each_row}
use mta_runtime_intramind.Ledger.Reconcile.{
  expire_directs, operation_ids, is_late, is_expired, unsent_row, ready_again, lost_row,
  reconciling_again, expire_attempt, impossible, queued, end_impossible, root_expired, expire_root,
  is_overdue, is_orphan, end_overdue, end_unservable, expire_roots, end_orphans, close_expired,
  reconcile_rows,
}
use mta_runtime_intramind.Ledger.Balance.Invariant.{IsConsistent}
use mta_runtime_intramind.Ledger.Balance.Frame.{Frame, Frame-refl, Frame-trans, Frame-IsConsistent}
use mta_runtime_intramind.Ledger.Balance.Quiet.{operations-Frame, terminal-Frame, end_each-Frame}
use mta_runtime_intramind.Ledger.Balance.Relabel.{with_attempts, relabel-IsConsistent}
use mta_runtime_intramind.Ledger.Balance.Settling.{Settled, settle-Settled}
use mta_runtime_intramind.Ledger.Balance.Ending.{ended-IsConsistent}
use mta_runtime_intramind.Ledger.Balance.Stopping.{aside-Frame, held-unused}
use mta_runtime_intramind.Ledger.Balance.Turns.{
  IsFresh, Turned, each_row-IsConsistent, Settled-Turned, joined_key, joined_rows-IsFresh,
  joined_rows-Distinct,
}
use mathlib.Core.Option

ready_again-Frame :
    (s : Ledger) (id : ℕ)
    → Frame s (record s { operations = update operation_key id ready_again s.operations })
ready_again-Frame s id =
    operations-Frame s id ready_again (λ o. ground arith) (λ o. ground arith) (λ o. ground arith)

reconciling_again-Frame :
    (s : Ledger) (id : ℕ)
    → Frame s (record s { operations = update operation_key id reconciling_again s.operations })
reconciling_again-Frame s id =
    operations-Frame s id reconciling_again (λ o. ground arith) (λ o. ground arith)
      (λ o. ground arith)

open-unsettled : (a : Attempt) → is_open a.state ≡ true → is_settled a.state ≡ false
open-unsettled a e = ground arith

abbrev AreOpen : List Joined → Ledger → Type 0
AreOpen js s = All (λ j. is_open j.attempt.state ≡ true) js

module _ (c : Clock) (j : Joined) (s : Ledger) (v : IsConsistent s) (fresh : IsFresh s j) where
  unsent-Turned : OnOk (Turned s j) (
      settle c j.attempt j.operation.root_id (some (pos 0)) s >>= λ t. ok (record t {
        attempts = update attempt_key j.attempt.attempt_id unsent_row t.attempts;
        operations = update operation_key j.attempt.operation_id ready_again t.operations;
      }))
  unsent-Turned =
      OnOk-bind (Settled j.attempt s) (Turned s j)
        (settle c j.attempt j.operation.root_id (some (pos 0)) s) _
        (settle-Settled c j.attempt j.operation.root_id s fresh.found fresh.drawn v.balanced _
          (held-unused j.attempt (v.rows j.attempt.attempt_id j.attempt fresh.found)))
        λ t settled.
          let after = with_attempts t j.attempt.attempt_id unsent_row in
          let frame = ready_again-Frame after j.attempt.operation_id in
          Settled-Turned s t _ j unsent_row settled (λ x. refl) frame
            (Frame-IsConsistent frame (
              ended-IsConsistent s t j.attempt unsent_row fresh.found settled
                (record { operation = refl; unit = refl; bound = refl; held = refl; usage = refl })
                (λ x. refl) (λ x. refl)
                (record {
                  released = λ h. (refl, settled.row_budget);
                  covered = λ h. absurd (cc);
                  unused = λ h. absurd (cc);
                })
                v))

  lost-Turned :
      is_open j.attempt.state ≡ true
      → Turned s j (record s {
        attempts = update attempt_key j.attempt.attempt_id (lost_row c) s.attempts;
        operations = update operation_key j.attempt.operation_id reconciling_again s.operations;
      })
  lost-Turned open_state =
      let id = j.attempt.attempt_id in
      let after = with_attempts s id (lost_row c) in
      let frame = reconciling_again-Frame after j.attempt.operation_id in
      let valid = v.rows id j.attempt fresh.found in
      record {
        consistent = Frame-IsConsistent frame (
            relabel-IsConsistent s id (lost_row c) j.attempt fresh.found
              (record { operation = refl; unit = refl; bound = refl; held = refl; usage = refl })
              (λ x. refl) (λ x. refl)
              (record {
                released = λ h. absurd (cc);
                covered = valid.covered;
                unused = λ h. valid.unused (open-unsettled j.attempt open_state);
              })
              v);
        others = λ k other.
            find-update attempt_key k id (lost_row c) s.attempts (λ x. refl) ∙ rw other refl;
        roots = frame.roots;
      }

  expire_attempt-Turned : is_open j.attempt.state ≡ true → OnOk (Turned s j) (expire_attempt c j s)
  unfolding expire_attempt
  expire_attempt-Turned open_state =
      OnOk-if (Turned s j) (is_reserved j.attempt.state) _ _ (λ _. unsent-Turned)
        (λ _. lost-Turned open_state)

expire_attempt-step :
    (c : Clock) (j : Joined) (js : List Joined) (s : Ledger)
    → IsConsistent s
    → IsFresh s j
    → AreOpen (j ∷ js) s
    → OnOk (λ t. Turned s j t × AreOpen js t) (expire_attempt c j s)
expire_attempt-step c j js s v fresh states =
    OnOk-map (Turned s j) (λ t. Turned s j t × AreOpen js t) (expire_attempt c j s)
      (λ t turned. (turned, states.1)) (expire_attempt-Turned c j s v fresh states.0)

end_impossible-Frame :
    (c : Clock) (pools : List PoolSpec) (os : List Operation) (s : Ledger)
    → Frame s (end_impossible c pools os s)
unfolding end_impossible
end_impossible-Frame c pools [] s = Frame-refl s
end_impossible-Frame c pools (o ∷ os) s =
    Frame-trans (ended (impossible pools o.spec)) (end_impossible-Frame c pools os _)
  where
    ended :
        (r : Option Reason)
        → Frame s (elim r as (λ x. Ledger) [
          | none ↦ s
          | some reason ↦ terminal c o.operation_id OperationState.failed reason s
        ])
    ended none = Frame-refl s
    ended (some reason) = terminal-Frame c o.operation_id OperationState.failed reason s

-- An UPDATE of roots that writes no budget.
module _ (s : Ledger) (p : Root → Bool) (f : Root → Root)
    (key : (x : Root) → (f x).root_id ≡ x.root_id)
    (kept : (x : Root) → (f x).budget ≡ x.budget) where
  abbrev where_roots : Ledger
  where_roots = record s { roots = update_where p f s.roots }

  same_budget :
      (o : Option Root)
      → Option.map (λ (r : Root). r.budget) (Option.map (λ r. if p r then f r else r) o)
        ≡ Option.map (λ (r : Root). r.budget) o
  same_budget none = refl
  same_budget (some r) =
      ap some (if_intro (λ (x : Root). x.budget ≡ r.budget) (p r) (f r) r (λ _. kept r) (λ _. refl))

  none_before : (o : Option Root) → Option.map (λ r. if p r then f r else r) o ≡ none → o ≡ none
  none_before none e = refl
  none_before (some r) e = absurd (cc)

  budget_of-where_roots :
      (root : ℕ) (unit : BudgetUnit) → budget_of where_roots root unit ≡ budget_of s root unit
  unfolding budget_of
  budget_of-where_roots root tokens =
      ap (Option.map (λ (r : Root). r.budget)) (find-update_where root_key root p f s.roots key)
      ∙ same_budget (find root_key root s.roots)
  budget_of-where_roots root speech_characters = refl
  budget_of-where_roots root embedding_characters = refl

  where_roots-Frame : Frame s where_roots
  where_roots-Frame = record {
    budgets = budget_of-where_roots;
    attempts = refl;
    roots = λ id. refl;
    specs = λ id. refl;
    kept = λ root e.
        none_before (find root_key root s.roots)
          (sym (find-update_where root_key root p f s.roots key) ∙ e);
  }

close_expired-Frame : (c : Clock) (s : Ledger) → Frame s (close_expired c s)
unfolding close_expired end_overdue end_unservable end_orphans
close_expired-Frame c s =
    let s₁ = end_overdue c s in
    let s₂ = end_unservable c s₁ in
    let s₃ = expire_roots c s₂ in
    Frame-trans
      (end_each-Frame c (operation_ids (is_overdue c s) s) OperationState.failed deadline_exceeded
        s)
      (Frame-trans (end_impossible-Frame c (map (λ (p : Pool). p.spec) s₁.pools) (queued s₁) s₁) (
        Frame-trans (where_roots-Frame s₂ (root_expired c) (expire_root c) (λ x. refl) (λ x. refl))
          (end_each-Frame c (operation_ids (is_orphan s₃) s₃) OperationState.cancelled root_terminal
            s₃)))

is_expired-open :
    (c : Clock) (s : Ledger) (j : Joined) → is_expired c s j ≡ true → is_open j.attempt.state ≡ true
unfolding is_expired
is_expired-open c s j e = ground arith

-- Where the transaction of `reconcile_expired` commits, the books are consistent.
pub reconcile_rows-IsConsistent :
    (c : Clock) (s : Ledger) → IsConsistent s → OnOk (λ x. IsConsistent x.0) (reconcile_rows c s)
unfolding reconcile_rows expire_directs
reconcile_rows-IsConsistent c s v =
    let s₁ = (expire_directs c s).0 in
    let late = operation_ids (is_late c) s₁ in
    let s₂ = end_each c late OperationState.failed operation_deadline_exceeded s₁ in
    let v₂ =
      Frame-IsConsistent
        (Frame-trans (aside-Frame s s₁ refl refl refl refl)
          (end_each-Frame c late OperationState.failed operation_deadline_exceeded s₁))
        v in
    let p = is_expired c s₂ in
    OnOk-bind (λ t. IsConsistent t × AreOpen [] t) (λ x. IsConsistent x.0)
      (each_row (expire_attempt c) (select p (joined_rows s₂)) s₂) _
      (each_row-IsConsistent (expire_attempt c) AreOpen (expire_attempt-step c)
        (select p (joined_rows s₂)) s₂ v₂
        (All-select (IsFresh s₂) p (joined_rows s₂) (joined_rows-IsFresh s₂))
        (Distinct-select joined_key p (joined_rows s₂) (joined_rows-Distinct s₂))
        (All-map (is_expired-open c s₂) (select p (joined_rows s₂))
          (All-chosen p (joined_rows s₂))))
      λ t done. Frame-IsConsistent (close_expired-Frame c t) done.0
