-- ===== src/Ledger/Progress/Parts.antt =====
-- The parts that the calls of store.py share: `_terminal`, `_expire_operation` and `_settle`.
use mta_runtime_intramind.Base.{
  ℕ, ◌≡◌, refl, sym, ap, ◌∙◌, Bool, false, Option, some, List, [], ◌∷◌, arith, ltb, leb,
  if◌then◌else◌, if_intro, Result, ok, err, OnOk, OnOk-bind, OnOk-if, OnOk-guard, OnOk-or_raise,
}
use mta_runtime_intramind.Base.Int.{ℤ}
use mta_runtime_intramind.Contracts.Operation.{
  OperationSpec, BudgetUnit, tokens, speech_characters, embedding_characters,
}
use mta_runtime_intramind.Table.{find, update, find-update}
use mta_runtime_intramind.Ledger.State.{
  Ledger, Clock, Root, Operation, OperationState, Attempt, AttemptState, Budget, Reason, EventId,
  is_terminal, is_running, operation_deadline_exceeded, root_key, attempt_key,
}
use mta_runtime_intramind.Ledger.Budgets.{budget_of, adjust_budget}
use mta_runtime_intramind.Ledger.Events.{
  event, completion_events, end_operation, terminal, expired, expire_operation,
}
use mta_runtime_intramind.Ledger.Settle.{
  charged, is_none, record_usage, spend, overspend, observe_usage, settle_held, settle,
}
use mta_runtime_intramind.Ledger.Runs.{end_each}
use mta_runtime_intramind.Ledger.Charging.{adjust_budget-operations}
use mta_runtime_intramind.Ledger.Progress.Steps.{
  RootStep, RootStep-refl, OperationStep, OperationStep-refl, Moves, Moves-refl, Moves-trans,
  Moves-root, Moves-operation, Moves-attempt,
}

-- A ledger whose three tables are the same has moved nothing.
pub Moves-same :
    (s t : Ledger)
    → t.roots ≡ s.roots
    → t.operations ≡ s.operations
    → t.attempts ≡ s.attempts
    → Moves s t
Moves-same s t p q r =
    let own = Moves-refl s in
    record {
      roots = rw p own.roots;
      operations = rw q own.operations;
      attempts = rw r own.attempts;
    }

end_operation-OperationStep :
    (state : OperationState) (reason : Reason) (o : Operation)
    → OperationStep o (end_operation state reason o)
end_operation-OperationStep state reason o =
    if_intro (OperationStep o) (is_terminal o.state) o _ (λ e. OperationStep-refl o)
      (λ e. record { root = refl; spec = refl; attempts = omega arith; final = λ h. absurd (cc) })

end_operation-key :
    (state : OperationState) (reason : Reason) (o : Operation)
    → (end_operation state reason o).operation_id ≡ o.operation_id
end_operation-key state reason o =
    if_intro (λ (p : Operation). p.operation_id ≡ o.operation_id) (is_terminal o.state) o _
      (λ e. refl) (λ e. refl)

pub terminal-Moves :
    (c : Clock) (id : ℕ) (state : OperationState) (reason : Reason) (s : Ledger)
    → Moves s (terminal c id state reason s)
unfolding terminal completion_events
terminal-Moves c id state reason s =
    Moves-trans
      (Moves-operation s id (end_operation state reason) (end_operation-key state reason)
        (λ o _. end_operation-OperationStep state reason o))
      (Moves-same _ _ refl refl refl)

pub expire_operation-Moves :
    (c : Clock) (spec : OperationSpec) (at : ℕ) (s : Ledger)
    → Moves s (expire_operation c spec at s).0
unfolding expire_operation
expire_operation-Moves c spec at s =
    if_intro (λ (r : Ledger × Bool). Moves s r.0) (expired spec.deadline at) _ _
      (λ e. terminal-Moves c spec.operation_id OperationState.failed operation_deadline_exceeded s)
      (λ e. Moves-refl s)

pub end_each-Moves :
    (c : Clock) (ids : List ℕ) (state : OperationState) (reason : Reason) (s : Ledger)
    → Moves s (end_each c ids state reason s)
unfolding end_each
end_each-Moves c [] state reason s = Moves-refl s
end_each-Moves c (id ∷ ids) state reason s =
    Moves-trans (terminal-Moves c id state reason s)
      (end_each-Moves c ids state reason (terminal c id state reason s))

pub completion_events-Moves : (c : Clock) (id : ℕ) (s : Ledger) → Moves s (completion_events c id s)
unfolding completion_events
completion_events-Moves c id s = Moves-same s _ refl refl refl

pub event-Moves :
    (c : Clock) (id : EventId) (aggregate : ℕ) (s : Ledger) → Moves s (event c id aggregate s)
unfolding event
event-Moves c id aggregate s = Moves-same s _ refl refl refl

-- A root whose columns of the budget change, or that overspends.
pub adjust_budget-Moves :
    (root : ℕ) (u : BudgetUnit) (f : Budget → Budget) (s : Ledger)
    → Moves s (adjust_budget root u f s)
unfolding adjust_budget
adjust_budget-Moves root tokens f s =
    Moves-root s root (λ r. record r { budget = f r.budget }) (λ r. refl)
      (λ r _. record {
        spec = refl;
        tenant = refl;
        attempts = omega arith;
        final = λ e. (refl, refl);
      })
adjust_budget-Moves root speech_characters f s = Moves-same s _ refl refl refl
adjust_budget-Moves root embedding_characters f s = Moves-same s _ refl refl refl

overspend-RootStep : (c : Clock) (r : Root) → RootStep r (overspend c r)
overspend-RootStep c r =
    if_intro (RootStep r) (is_running r.state) _ r
      (λ e. record { spec = refl; tenant = refl; attempts = omega arith; final = λ h. absurd (cc) })
      (λ e. RootStep-refl r)

overspend-key : (c : Clock) (r : Root) → (overspend c r).root_id ≡ r.root_id
overspend-key c r =
    if_intro (λ (q : Root). q.root_id ≡ r.root_id) (is_running r.state) _ r (λ e. refl) (λ e. refl)

observe_usage-Moves :
    (c : Clock) (a : Attempt) (root usage : ℕ) (b : Budget) (s : Ledger)
    → Moves s (observe_usage c a root usage b s)
unfolding observe_usage
observe_usage-Moves c a root usage b s = Moves-trans observed (Moves-same _ _ refl refl refl)
  where
    observed : Moves s (record s {
      roots = if ltb b.limit b.spent then update root_key root (overspend c) s.roots else s.roots;
    })
    observed =
        if_intro (λ rs. Moves s (record s { roots = rs })) (ltb b.limit b.spent) _ s.roots
          (λ _. Moves-root s root (overspend c) (overspend-key c) (λ r _. overspend-RootStep c r))
          (λ _. Moves-refl s)

pub adjust_budget-attempts :
    (root : ℕ) (u : BudgetUnit) (f : Budget → Budget) (s : Ledger)
    → (adjust_budget root u f s).attempts ≡ s.attempts
unfolding adjust_budget
adjust_budget-attempts root tokens f s = refl
adjust_budget-attempts root speech_characters f s = refl
adjust_budget-attempts root embedding_characters f s = refl

-- The row under this identity is in this state.
abbrev pub IsAt : ℕ → AttemptState → Ledger → Type 0
IsAt id state t = (x : Attempt) → find attempt_key id t.attempts ≡ some x → x.state ≡ state

-- The ledger moves, the attempt stays in its state and the operations are the same.
pub record KeepsRow (a : Attempt) (s t : Ledger) : Type 0 where
  pub moves : Moves s t
  pub state : IsAt a.attempt_id a.state t
  pub operations : t.operations ≡ s.operations

settled_ledger-KeepsRow :
    (c : Clock) (a : Attempt) (root n : ℕ) (estimated : Bool) (b : Budget) (s : Ledger)
    → find attempt_key a.attempt_id s.attempts ≡ some a
    → KeepsRow a s (
        observe_usage c a root n b (
          adjust_budget root a.budget_unit (spend a.budget_bound n) (record s {
            attempts = update attempt_key a.attempt_id (record_usage n estimated) s.attempts;
          })))
unfolding observe_usage
settled_ledger-KeepsRow c a root n estimated b s found = record {
  moves = Moves-trans recorded (
      Moves-trans (adjust_budget-Moves root a.budget_unit (spend a.budget_bound n) _)
        (observe_usage-Moves c a root n b _));
  state = λ x e. kept x (
      sym (ap (find attempt_key a.attempt_id) (adjust_budget-attempts root a.budget_unit _ _)) ∙ e);
  operations = adjust_budget-operations root a.budget_unit _ _;
}
  where
    rows : List Attempt
    rows = update attempt_key a.attempt_id (record_usage n estimated) s.attempts

    recorded : Moves s (record s { attempts = rows })
    recorded =
        Moves-attempt s a.attempt_id (record_usage n estimated) (λ x. refl)
          (λ x _. record {
            operation = refl;
            owner = refl;
            lease = refl;
            final = λ e. refl;
            sent = λ e. e;
          })

    kept : (x : Attempt) → find attempt_key a.attempt_id rows ≡ some x → x.state ≡ a.state
    kept x e = ground (
      arith,
      find-update attempt_key a.attempt_id a.attempt_id (record_usage n estimated) s.attempts
          (λ x. refl),
    )

-- Where nothing expires, nothing changes.
pub expire_operation-kept :
    (c : Clock) (spec : OperationSpec) (at : ℕ) (s : Ledger)
    → (expire_operation c spec at s).1 ≡ false
    → (expire_operation c spec at s).0.operations ≡ s.operations
unfolding expire_operation
expire_operation-kept c spec at s e = ground arith

pub settle-KeepsRow :
    (c : Clock) (a : Attempt) (root : ℕ) (usage : Option ℤ) (s : Ledger)
    → find attempt_key a.attempt_id s.attempts ≡ some a
    → OnOk (KeepsRow a s) (settle c a root usage s)
unfolding settle settle_held
settle-KeepsRow c a root usage s found =
    let P = KeepsRow a s in
    OnOk-if P a.budget_held _ _
      (λ _.
        OnOk-bind (λ n. Unit {0}) P (charged a usage) _ (any (charged a usage))
          λ n _. OnOk-or_raise P (budget_of s root a.budget_unit) _ _ λ b _.
            OnOk-guard P (leb a.budget_bound b.reserved) _ _ λ _.
              settled_ledger-KeepsRow c a root n (is_none usage) (spend a.budget_bound n b) s found)
      (λ _. record {
        moves = Moves-refl s;
        state = λ x e. ap_state x (sym found ∙ e);
        operations = refl;
      })
  where
    any : (m : Result ℕ) → OnOk (λ n. Unit {0}) m
    any (ok n) = tt
    any (err e) = tt

    ap_state : (x : Attempt) → some a ≡ some x → x.state ≡ a.state
    ap_state x e = ground arith
