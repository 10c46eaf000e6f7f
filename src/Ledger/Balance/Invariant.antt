-- ===== src/Ledger/Balance/Invariant.antt =====
-- The sums behind the columns `reserved` and `spent`, and the rows that they range over.
use mta_runtime_intramind.Base.{
  ℕ, ◌≡◌, ◌≢◌, Bool, true, false, ◌&&◌, Option, none, some, if◌then◌else◌, sum, List, [], ◌∷◌,
}
use mta_runtime_intramind.Contracts.Operation.{BudgetUnit, OperationSpec, budget_bound, budget_unit}
use mta_runtime_intramind.Table.{find}
use mta_runtime_intramind.Ledger.State.{
  Ledger, Budget, Operation, Attempt, is_settled, same_unit, root_key, operation_key, attempt_key,
}
use mta_runtime_intramind.Ledger.Budgets.{budget_of}
use mta_runtime_intramind.Ledger.Attempts.{names}
use mathlib.Core.Option

-- The root that an operation's row names.
abbrev pub root_of : List Operation → ℕ → Option ℕ
root_of operations id = Option.map (λ o. o.root_id) (find operation_key id operations)

-- The specification that an operation's row holds.
abbrev pub spec_of : List Operation → ℕ → Option OperationSpec
spec_of operations id = Option.map (λ o. o.spec) (find operation_key id operations)

-- The attempt draws on the budget of this root in this unit.
abbrev pub draws : List Operation → ℕ → BudgetUnit → Attempt → Bool
draws operations root unit a =
    same_unit a.budget_unit unit && names (root_of operations a.operation_id) root

-- What an attempt adds to `reserved`.
unfoldable pub held_in : List Operation → ℕ → BudgetUnit → Attempt → ℕ
held_in operations root unit a =
    if a.budget_held && draws operations root unit a then a.budget_bound else 0

abbrev pub usage_of : Attempt → ℕ
usage_of a = elim a.usage [ none ↦ 0 | some n ↦ n ]

-- What an attempt adds to `spent`.
unfoldable pub used_in : List Operation → ℕ → BudgetUnit → Attempt → ℕ
used_in operations root unit a = if draws operations root unit a then usage_of a else 0

-- A row of runtime_attempts by itself.
pub record IsValidAttempt (a : Attempt) : Type 0 where
  -- an attempt that has ended holds nothing
  pub released : is_settled a.state ≡ true → (a.compute_held ≡ false) × (a.budget_held ≡ false)
  -- compute is never held without its budget
  pub covered : a.compute_held ≡ true → a.budget_held ≡ true
  -- usage is recorded only as the attempt ends
  pub unused : is_settled a.state ≡ false → a.usage ≡ none

pub record IsBalanced (s : Ledger) : Type 0 where
  pub held :
      (root : ℕ) (unit : BudgetUnit) (b : Budget)
      → budget_of s root unit ≡ some b
      → b.reserved ≡ sum (held_in s.operations root unit) s.attempts
  pub used :
      (root : ℕ) (unit : BudgetUnit) (b : Budget)
      → budget_of s root unit ≡ some b
      → b.spent ≡ sum (used_in s.operations root unit) s.attempts

-- The foreign keys that the sums rest on.
abbrev pub AllLinked : List Operation → List Attempt → Type 0
AllLinked operations [] = Unit
AllLinked operations (a ∷ rest) =
    (root_of operations a.operation_id ≢ none) × AllLinked operations rest

-- The attempt reserves what its operation's specification says, in the unit that it says.
abbrev pub IsPriced : List Operation → Attempt → Type 0
IsPriced operations a =
    (spec : OperationSpec)
    → spec_of operations a.operation_id ≡ some spec
    → (a.budget_bound ≡ budget_bound spec) × (a.budget_unit ≡ budget_unit spec)

pub record IsConsistent (s : Ledger) : Type 0 where
  pub balanced : IsBalanced s
  pub rows : (id : ℕ) (a : Attempt) → find attempt_key id s.attempts ≡ some a → IsValidAttempt a
  -- an attempt is priced by the specification of its operation
  pub priced :
      (id : ℕ) (a : Attempt) → find attempt_key id s.attempts ≡ some a → IsPriced s.operations a
  pub linked : AllLinked s.operations s.attempts
  pub rooted :
      (id root : ℕ) → root_of s.operations id ≡ some root → find root_key root s.roots ≢ none
