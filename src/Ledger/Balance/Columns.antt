-- ===== src/Ledger/Balance/Columns.antt =====
-- What an UPDATE of a budget, or of another column of its row, does to the budgets.
use mta_runtime_intramind.Base.{
  ℕ, ◌≡◌, refl, ap, Bool, true, false, ◌&&◌, Option, none, some, List, [], ◌∷◌, arith, ◌==◌,
  if◌then◌else◌,
}
use mta_runtime_intramind.Contracts.Operation.{
  BudgetUnit, tokens, speech_characters, embedding_characters,
}
use mta_runtime_intramind.Table.{find, update, find-update}
use mta_runtime_intramind.Ledger.State.{
  Ledger, Root, ResourceBudget, Budget, root_key, same_unit, unit_code,
}
use mta_runtime_intramind.Ledger.Budgets.{find_resource, update_resource, budget_of, adjust_budget}
use mathlib.Core.Option

find_resource-update :
    (root r : ℕ) (unit u : BudgetUnit) (f : Budget → Budget) (bs : List ResourceBudget)
    → find_resource r u (update_resource root unit f bs) ≡ (
        if root == r && same_unit unit u
        then Option.map f (find_resource r u bs)
        else find_resource r u bs)
unfolding find_resource update_resource
find_resource-update root r unit u f [] = ground arith
find_resource-update root r unit u f (b ∷ bs) =
    ground (arith, find_resource-update root r unit u f bs)

-- An adjustment reaches the budget that it names, and no other.
pub budget_of-adjust :
    (root r : ℕ) (unit u : BudgetUnit) (f : Budget → Budget) (s : Ledger)
    → budget_of (adjust_budget root unit f s) r u
      ≡ (if root == r && same_unit unit u then Option.map f (budget_of s r u) else budget_of s r u)
unfolding budget_of adjust_budget unit_code
budget_of-adjust root r tokens tokens f s = ground (
  arith,
  find-update root_key r root (λ (x : Root). record x { budget = f x.budget }) s.roots (λ x. refl),
)
budget_of-adjust root r tokens speech_characters f s = ground arith
budget_of-adjust root r tokens embedding_characters f s = ground arith
budget_of-adjust root r speech_characters tokens f s = ground arith
budget_of-adjust root r speech_characters speech_characters f s =
    find_resource-update root r speech_characters speech_characters f s.budgets
budget_of-adjust root r speech_characters embedding_characters f s =
    find_resource-update root r speech_characters embedding_characters f s.budgets
budget_of-adjust root r embedding_characters tokens f s = ground arith
budget_of-adjust root r embedding_characters speech_characters f s =
    find_resource-update root r embedding_characters speech_characters f s.budgets
budget_of-adjust root r embedding_characters embedding_characters f s =
    find_resource-update root r embedding_characters embedding_characters f s.budgets

map-if :
    (test : Bool) (f : Root → Root) (o : Option Root)
    → ((x : Root) → (f x).budget ≡ x.budget)
    → Option.map (λ (x : Root). x.budget) (if test then Option.map f o else o)
      ≡ Option.map (λ (x : Root). x.budget) o
map-if true f none keeps = refl
map-if true f (some x) keeps = ap some (keeps x)
map-if false f o keeps = refl

-- An update of the root's other columns leaves every budget alone.
pub budget_of-update_root :
    (root r : ℕ) (u : BudgetUnit) (f : Root → Root) (s : Ledger)
    → ((x : Root) → (f x).root_id ≡ x.root_id)
    → ((x : Root) → (f x).budget ≡ x.budget)
    → budget_of (record s { roots = update root_key root f s.roots }) r u ≡ budget_of s r u
unfolding budget_of
budget_of-update_root root r tokens f s key keeps =
    rw (find-update root_key r root f s.roots key)
      (map-if (root == r) f (find root_key r s.roots) keeps)
budget_of-update_root root r speech_characters f s key keeps = refl
budget_of-update_root root r embedding_characters f s key keeps = refl

-- The budgets are read from two tables.
pub budget_of-eq :
    (s t : Ledger) (root : ℕ) (unit : BudgetUnit)
    → t.roots ≡ s.roots
    → t.budgets ≡ s.budgets
    → budget_of t root unit ≡ budget_of s root unit
unfolding budget_of
budget_of-eq s t root tokens p q = rw p
budget_of-eq s t root speech_characters p q = rw q
budget_of-eq s t root embedding_characters p q = rw q
