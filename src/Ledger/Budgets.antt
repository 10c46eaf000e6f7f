-- ===== src/Ledger/Budgets.antt =====
-- The two places where a budget stands: the columns of runtime_roots for tokens, and the rows of
-- runtime_resource_budgets for the other units.
use mta_runtime_intramind.Base.{ℕ, Option, none, some, List, [], ◌∷◌, ◌&&◌, ◌==◌, if◌then◌else◌}
use mta_runtime_intramind.Contracts.Operation.{
  BudgetUnit, tokens, speech_characters, embedding_characters,
}
use mta_runtime_intramind.Table.{find, update}
use mta_runtime_intramind.Ledger.State.{Ledger, ResourceBudget, Budget, root_key, same_unit}
use mathlib.Core.Option

-- The primary key (root_id, unit) of a resource budget.
unfoldable pub find_resource : ℕ → BudgetUnit → List ResourceBudget → Option Budget
find_resource root unit [] = none
find_resource root unit (b ∷ bs) =
    if b.root_id == root && same_unit b.unit unit then some b.budget else find_resource root unit bs

unfoldable pub update_resource :
    ℕ → BudgetUnit → (Budget → Budget) → List ResourceBudget → List ResourceBudget
update_resource root unit f [] = []
update_resource root unit f (b ∷ bs) =
    if b.root_id == root && same_unit b.unit unit
    then record b { budget = f b.budget } ∷ bs
    else b ∷ update_resource root unit f bs

-- `root if spec.budget_unit == "tokens" else await row(… runtime_resource_budgets …)`
unfoldable pub budget_of : Ledger → ℕ → BudgetUnit → Option Budget
budget_of s root tokens = Option.map (λ r. r.budget) (find root_key root s.roots)
budget_of s root speech_characters = find_resource root speech_characters s.budgets
budget_of s root embedding_characters = find_resource root embedding_characters s.budgets

-- The UPDATE of the budget's columns in the table where it stands.
unfoldable pub adjust_budget : ℕ → BudgetUnit → (Budget → Budget) → Ledger → Ledger
adjust_budget root tokens f s = record s {
  roots = update root_key root (λ r. record r { budget = f r.budget }) s.roots;
}
adjust_budget root speech_characters f s = record s {
  budgets = update_resource root speech_characters f s.budgets;
}
adjust_budget root embedding_characters f s = record s {
  budgets = update_resource root embedding_characters f s.budgets;
}
