-- ===== src/Ledger/Balance/Rebook.antt =====
-- One attempt's row changes together with the budget that it draws on: the sums follow.
use mta_runtime_intramind.Base.{
  ℕ, ◌+◌, ◌≤◌, ◌≡◌, refl, sym, ap, ◌∙◌, Bool, true, false, ◌&&◌, Option, none, some, arith, ◌==◌,
  if◌then◌else◌, sum,
}
use mta_runtime_intramind.Contracts.Operation.{
  BudgetUnit, tokens, speech_characters, embedding_characters,
}
use mta_runtime_intramind.Table.{find, update, sum-update, le-sum}
use mta_runtime_intramind.Ledger.State.{Ledger, Budget, Attempt, attempt_key, same_unit}
use mta_runtime_intramind.Ledger.Budgets.{budget_of, adjust_budget}
use mta_runtime_intramind.Ledger.Balance.Invariant.{root_of, held_in, used_in, usage_of, IsBalanced}
use mta_runtime_intramind.Ledger.Balance.Columns.{budget_of-adjust, budget_of-eq}
use mathlib.Core.Option

-- What an attempt holds of its budget.
abbrev pub holding : Attempt → ℕ
holding a = if a.budget_held then a.budget_bound else 0

-- One attempt's row is replaced, and the budget that it draws on is adjusted.
abbrev pub rebook : Ledger → ℕ → (Attempt → Attempt) → ℕ → BudgetUnit → (Budget → Budget) → Ledger
rebook s id g root unit f =
    adjust_budget root unit f (record s { attempts = update attempt_key id g s.attempts })

-- The two updates do not touch one another's columns.
pub adjust-with_attempts :
    (s : Ledger) (id : ℕ) (g : Attempt → Attempt) (root : ℕ) (unit : BudgetUnit)
    (f : Budget → Budget)
    → rebook s id g root unit f ≡ (
        let t = adjust_budget root unit f s in
        record t { attempts = update attempt_key id g t.attempts })
unfolding adjust_budget
adjust-with_attempts s id g root tokens f = refl
adjust-with_attempts s id g root speech_characters f = refl
adjust-with_attempts s id g root embedding_characters f = refl

module _ (s : Ledger) (id : ℕ) (a : Attempt) (g : Attempt → Attempt) (root : ℕ) (unit : BudgetUnit)
    (f : Budget → Budget) (found : find attempt_key id s.attempts ≡ some a)
    (unit_is : a.budget_unit ≡ unit) (drawn : root_of s.operations a.operation_id ≡ some root)
    (same_operation : (g a).operation_id ≡ a.operation_id)
    (unit_kept : (g a).budget_unit ≡ a.budget_unit) where
  abbrev pub booked : Ledger
  booked = rebook s id g root unit f

  pub rebook-attempts : booked.attempts ≡ update attempt_key id g s.attempts
  unfolding adjust_budget
  rebook-attempts =
      elim unit as (λ u. (rebook s id g root u f).attempts ≡ update attempt_key id g s.attempts) [
        | tokens ↦ refl
        | speech_characters ↦ refl
        | embedding_characters ↦ refl
      ]

  pub rebook-operations : booked.operations ≡ s.operations
  unfolding adjust_budget
  rebook-operations = elim unit as (λ u. (rebook s id g root u f).operations ≡ s.operations) [
    | tokens ↦ refl
    | speech_characters ↦ refl
    | embedding_characters ↦ refl
  ]

  abbrev hit : ℕ → BudgetUnit → Bool
  hit r u = root == r && same_unit unit u

  held_in-before :
      (r : ℕ) (u : BudgetUnit) → held_in s.operations r u a ≡ (if hit r u then holding a else 0)
  unfolding held_in
  held_in-before r u = rw drawn (ground arith)

  held_in-after :
      (r : ℕ) (u : BudgetUnit)
      → held_in s.operations r u (g a) ≡ (if hit r u then holding (g a) else 0)
  unfolding held_in
  held_in-after r u = rw (same_operation, unit_kept, drawn) (ground arith)

  used_in-before :
      (r : ℕ) (u : BudgetUnit) → used_in s.operations r u a ≡ (if hit r u then usage_of a else 0)
  unfolding used_in
  used_in-before r u = rw drawn (ground arith)

  used_in-after :
      (r : ℕ) (u : BudgetUnit)
      → used_in s.operations r u (g a) ≡ (if hit r u then usage_of (g a) else 0)
  unfolding used_in
  used_in-after r u = rw (same_operation, unit_kept, drawn) (ground arith)

  -- A budget after the adjustment comes from one before it.
  origin :
      (r : ℕ) (u : BudgetUnit) (b : Budget)
      → budget_of booked r u ≡ some b
      → (old : Budget) × (budget_of s r u ≡ some old) × (b ≡ (if hit r u then f old else old))
  origin r u b e = from (hit r u) (budget_of s r u) (
      sym e
      ∙ budget_of-adjust root r unit u f _
      ∙ ap (λ o. if hit r u then Option.map f o else o)
          (budget_of-eq s (record s { attempts = update attempt_key id g s.attempts }) r u refl
            refl))
    where
      from :
          (test : Bool) (o : Option Budget)
          → some b ≡ (if test then Option.map f o else o)
          → (old : Budget) × (o ≡ some old) × (b ≡ (if test then f old else old))
      from true none e = absurd (cc)
      from true (some old) e = (old, refl, cc)
      from false none e = absurd (cc)
      from false (some old) e = (old, refl, cc)

  -- The adjustment matches what the row held and used, and what it holds and uses now.
  abbrev pub Matches : Type 0
  Matches =
      (b : Budget)
      → holding a ≤ b.reserved
      → ((f b).reserved + holding a ≡ b.reserved + holding (g a))
        × ((f b).spent + usage_of a ≡ b.spent + usage_of (g a))

  held_sum :
      Matches
      → (r : ℕ) (u : BudgetUnit) (old : Budget)
      → old.reserved ≡ sum (held_in s.operations r u) s.attempts
      → (if hit r u then f old else old).reserved
        ≡ sum (held_in s.operations r u) (update attempt_key id g s.attempts)
  held_sum matches r u old v = ground (
    arith,
    matches old,
    held_in-before r u,
    held_in-after r u,
    sum-update attempt_key id g (held_in s.operations r u) s.attempts a found,
    le-sum attempt_key id (held_in s.operations r u) s.attempts a found,
  )

  used_sum :
      Matches
      → (r : ℕ) (u : BudgetUnit) (old : Budget)
      → old.reserved ≡ sum (held_in s.operations r u) s.attempts
      → old.spent ≡ sum (used_in s.operations r u) s.attempts
      → (if hit r u then f old else old).spent
        ≡ sum (used_in s.operations r u) (update attempt_key id g s.attempts)
  used_sum matches r u old w v = ground (
    arith,
    matches old,
    held_in-before r u,
    used_in-before r u,
    used_in-after r u,
    sum-update attempt_key id g (used_in s.operations r u) s.attempts a found,
    le-sum attempt_key id (held_in s.operations r u) s.attempts a found,
  )

  -- The books balance again.
  pub rebook-IsBalanced : Matches → IsBalanced s → IsBalanced booked
  rebook-IsBalanced matches v = record {
    held = λ r u b e.
        let (old, was, now) = origin r u b e in
        ap (λ (x : Budget). x.reserved) now
        ∙ held_sum matches r u old (v.held r u old was)
        ∙ sym (ap (sum (held_in s.operations r u)) rebook-attempts)
        ∙ sym (ap (λ os. sum (held_in os r u) booked.attempts) rebook-operations);
    used = λ r u b e.
        let (old, was, now) = origin r u b e in
        ap (λ (x : Budget). x.spent) now
        ∙ used_sum matches r u old (v.held r u old was) (v.used r u old was)
        ∙ sym (ap (sum (used_in s.operations r u)) rebook-attempts)
        ∙ sym (ap (λ os. sum (used_in os r u) booked.attempts) rebook-operations);
  }
