-- ===== src/Ledger/Charging.antt =====
-- store.py, `mark_send`: what a send that is charged has established.
use mta_runtime_intramind.Base.{
  ℕ, ◌+◌, ◌≤◌, ◌≡◌, ◌≢◌, refl, sym, ap, ◌∙◌, Bool, true, false, ◌&&◌, Option, none, some, List,
  arith, ltb, ==_refl, if◌then◌else◌, ok, err, ◌⊎◌, inl, inr, guard, runtime_conflict,
  stale_attempt_ownership, OnOk, OnOk-bind, OnOk-if, OnOk-guard, OnOk-or_raise, ◌>>=◌, ◌>>◌,
}
use mta_runtime_intramind.Contracts.Operation.{
  OperationSpec, BudgetUnit, tokens, speech_characters, embedding_characters, budget_unit,
  budget_bound,
}
use mta_runtime_intramind.Table.{find, update, find-update}
use mta_runtime_intramind.Ledger.State.{
  Ledger, Clock, Root, Operation, Attempt, Budget, root_key, operation_key, attempt_key, same_unit,
  unit_code,
}
use mta_runtime_intramind.Ledger.Budgets.{budget_of, adjust_budget}
use mta_runtime_intramind.Ledger.Attempts.{
  Reservation, Joined, join, owned, mark_send, charge_send, holds, can_send, still_sendable,
  affords, reserve, count_operation_attempt, count_root_attempt, send_intent_row,
}
use mta_runtime_intramind.Ledger.Balance.Columns.{
  budget_of-adjust, budget_of-update_root, budget_of-eq,
}
use mathlib.Core.Option

-- The budget, the operation and the root that a send draws on stay within their limits.
pub record IsWithinLimits (root operation : ℕ) (spec : OperationSpec) (t : Ledger) : Type 0 where
  pub budgeted : budget_of t root (budget_unit spec) ≢ none
  pub covered :
      (b : Budget) → budget_of t root (budget_unit spec) ≡ some b → b.spent + b.reserved ≤ b.limit
  pub tried :
      (o : Operation)
      → find operation_key operation t.operations ≡ some o
      → o.attempts ≤ spec.max_attempts
  pub rooted : (r : Root) → find root_key root t.roots ≡ some r → r.attempts ≤ r.spec.max_attempts

-- An adjusted budget leaves the root's attempts and specification, and every operation.
adjust_budget-counts :
    (root : ℕ) (u : BudgetUnit) (f : Budget → Budget) (s : Ledger) (x : Root)
    → find root_key root (adjust_budget root u f s).roots ≡ some x
    → (r : Root) → find root_key root s.roots ≡ some r
    → (x.attempts ≡ r.attempts) × (x.spec ≡ r.spec)
unfolding adjust_budget
adjust_budget-counts root tokens f s x e r h = ground (
  arith,
  find-update root_key root root (λ (a : Root). record a { budget = f a.budget }) s.roots
      (λ a. refl),
)
adjust_budget-counts root speech_characters f s x e r h = (cc, cc)
adjust_budget-counts root embedding_characters f s x e r h = (cc, cc)

pub adjust_budget-operations :
    (root : ℕ) (u : BudgetUnit) (f : Budget → Budget) (s : Ledger)
    → (adjust_budget root u f s).operations ≡ s.operations
unfolding adjust_budget
adjust_budget-operations root tokens f s = refl
adjust_budget-operations root speech_characters f s = refl
adjust_budget-operations root embedding_characters f s = refl

find-counted_root :
    (root : ℕ) (rs : List Root) (r : Root)
    → find root_key root rs ≡ some r
    → find root_key root (update root_key root count_root_attempt rs) ≡ some (count_root_attempt r)
find-counted_root root rs r e =
    ground (arith, find-update root_key root root count_root_attempt rs (λ x. refl))

find-counted_operation :
    (id : ℕ) (os : List Operation) (o : Operation)
    → find operation_key id os ≡ some o
    → find operation_key id (update operation_key id count_operation_attempt os)
      ≡ some (count_operation_attempt o)
find-counted_operation id os o e =
    ground (arith, find-update operation_key id id count_operation_attempt os (λ x. refl))

same_unit_refl : (u : BudgetUnit) → same_unit u u ≡ true
unfolding unit_code
same_unit_refl tokens = refl
same_unit_refl speech_characters = refl
same_unit_refl embedding_characters = refl

affords-fits :
    (bound : ℕ) (o : Option Budget) (b : Budget)
    → affords bound o ≡ true
    → Option.map (reserve bound) o ≡ some b
    → b.spent + b.reserved ≤ b.limit
affords-fits bound none b h e = absurd (cc)
affords-fits bound (some x) b h e = ground arith

affords-found :
    (bound : ℕ) (o : Option Budget) → affords bound o ≡ true → Option.map (reserve bound) o ≢ none
affords-found bound none h e = absurd (cc)
affords-found bound (some x) h e = absurd (cc)

module _ (root operation : ℕ) (spec : OperationSpec) (s : Ledger) where
  abbrev counted : Ledger
  counted = record s {
    operations = update operation_key operation count_operation_attempt s.operations;
    roots = update root_key root count_root_attempt s.roots;
  }

  -- The ledger that the charge leaves.
  abbrev charged : Ledger
  charged = adjust_budget root (budget_unit spec) (reserve (budget_bound spec)) counted

  budget_of-charged :
      budget_of charged root (budget_unit spec)
      ≡ Option.map (reserve (budget_bound spec)) (budget_of s root (budget_unit spec))
  budget_of-charged =
      rw
        (
          budget_of-adjust root root (budget_unit spec) (budget_unit spec)
              (reserve (budget_bound spec)) counted,
          ==_refl root,
          same_unit_refl (budget_unit spec),
          budget_of-update_root root root (budget_unit spec) count_root_attempt
              (record s {
                operations = update operation_key operation count_operation_attempt s.operations;
              })
              (λ x. refl) (λ x. refl),
        )
        (ap (Option.map (reserve (budget_bound spec)))
          (budget_of-eq s _ root (budget_unit spec) refl refl))

  charged-IsWithinLimits :
      (r : Root) (o : Operation)
      → find root_key root s.roots ≡ some r
      → find operation_key operation s.operations ≡ some o
      → (ltb o.attempts spec.max_attempts && ltb r.attempts r.spec.max_attempts) ≡ true
      → affords (budget_bound spec) (budget_of s root (budget_unit spec)) ≡ true
      → IsWithinLimits root operation spec charged
  charged-IsWithinLimits r o found_root found_operation tries afforded = record {
    budgeted = λ e.
        affords-found (budget_bound spec) (budget_of s root (budget_unit spec)) afforded
          (sym budget_of-charged ∙ e);
    covered = λ b e.
        affords-fits (budget_bound spec) (budget_of s root (budget_unit spec)) b afforded
          (sym budget_of-charged ∙ e);
    tried = λ x e. tried x (
        sym (
          ap (find operation_key operation)
            (adjust_budget-operations root (budget_unit spec) _ counted))
        ∙ e);
    rooted = λ x e.
        let kept =
          adjust_budget-counts root (budget_unit spec) (reserve (budget_bound spec)) counted x e
            (count_root_attempt r) (find-counted_root root s.roots r found_root) in
        ground (arith, kept.0, kept.1);
  }
    where
      tried :
          (x : Operation)
          → find operation_key operation counted.operations ≡ some x
          → x.attempts ≤ spec.max_attempts
      tried x e = ground (arith, find-counted_operation operation s.operations o found_operation)

module _ (c : Clock) (res : Reservation) (s : Ledger) (j : Joined) where
  abbrev Within : Ledger → Type 0
  Within = IsWithinLimits j.operation.root_id j.attempt.operation_id j.operation.spec

  charge_send-IsWithinLimits : OnOk Within (charge_send c res j s)
  unfolding charge_send
  charge_send-IsWithinLimits =
      OnOk-or_raise Within (find root_key j.operation.root_id s.roots) _ _ λ r found_root.
        OnOk-or_raise Within (find operation_key j.attempt.operation_id s.operations) _ _
          λ o found_operation. OnOk-guard Within (still_sendable c res j r o) _ _ λ _.
            OnOk-guard Within
              (ltb o.attempts j.operation.spec.max_attempts && ltb r.attempts r.spec.max_attempts) _
              _
              λ tries.
                OnOk-guard Within
                  (affords (budget_bound j.operation.spec)
                    (budget_of s j.operation.root_id (budget_unit j.operation.spec)))
                  _ _
                  λ afforded.
                    charged-IsWithinLimits j.operation.root_id j.attempt.operation_id
                      j.operation.spec s r o found_root found_operation tries afforded

  with_attempts-IsWithinLimits :
      (t : Ledger) (rows : List Attempt) → Within t → Within (record t { attempts = rows })
  with_attempts-IsWithinLimits t rows w = record {
    budgeted = λ e.
        w.budgeted
          (sym (budget_of-eq t _ j.operation.root_id (budget_unit j.operation.spec) refl refl) ∙ e);
    covered = λ b e.
        w.covered b
          (sym (budget_of-eq t _ j.operation.root_id (budget_unit j.operation.spec) refl refl) ∙ e);
    tried = w.tried;
    rooted = w.rooted;
  }

  send-IsWithinLimits :
      j.attempt.budget_held ≡ false
      → OnOk Within (
          (if j.attempt.budget_held then ok s else charge_send c res j s) >>= λ t. ok (record t {
            attempts = update attempt_key res.attempt_id (send_intent_row c) t.attempts;
          }))
  send-IsWithinLimits free =
      OnOk-bind Within Within _ _
        (OnOk-if Within j.attempt.budget_held (ok s) (charge_send c res j s) (λ held. absurd (cc))
          (λ _. charge_send-IsWithinLimits))
        (λ t w. with_attempts-IsWithinLimits t _ w)

owned-cases :
    (res : Reservation) (s : Ledger) (j : Joined)
    → join s res.attempt_id ≡ some j
    → (owned res s ≡ ok j) ⊎ (owned res s ≡ err (runtime_conflict stale_attempt_ownership))
unfolding owned
owned-cases res s j found = rw found (fenced (holds res j))
  where
    fenced :
        (b : Bool)
        → ((guard b (runtime_conflict stale_attempt_ownership) >> ok j) ≡ ok j)
          ⊎ ((guard b (runtime_conflict stale_attempt_ownership) >> ok j)
              ≡ err (runtime_conflict stale_attempt_ownership))
    fenced true = inl refl
    fenced false = inr refl

-- A send that is charged never commits its root to more than it may spend: where `mark_send`
-- returns for an attempt that held no budget, the budget it drew on exists and what is spent and
-- reserved of it stays within its limit, the operation's sends stay within the specification's
-- `max_attempts` and the root's within the root's.
pub mark_send-IsWithinLimits :
    (c : Clock) (res : Reservation) (s : Ledger) (j : Joined)
    → join s res.attempt_id ≡ some j
    → j.attempt.budget_held ≡ false
    → OnOk
        (IsWithinLimits j.operation.root_id j.attempt.operation_id j.operation.spec)
        (mark_send c res s)
unfolding mark_send
mark_send-IsWithinLimits c res s j found free = elim (owned-cases res s j found) [
  | inl e ↦ rw e (
      OnOk-guard (Within c res s j) (can_send c res j s) _ _
        λ _. send-IsWithinLimits c res s j free)
  | inr e ↦ rw e tt
]
