-- ===== src/Ledger/Balance/Opening.antt =====
-- A new root or operation starts with no budget in use, and closing a root moves none.
use mta_runtime_intramind.Base.{
  ℕ, ◌≡◌, ◌⊎◌, refl, sym, ap, ◌∙◌, false, Option, none, some, List, [], ◌∷◌, arith, ◌==◌, ==→eq,
  leb, sum, count, decides, Bool-cases, inl, inr, OnOk, OnOk-guard, OnOk-raise_if,
}
use mta_runtime_intramind.Contracts.Operation.{
  BudgetUnit, tokens, speech_characters, embedding_characters, RootSpec, RootSpec-discrete,
}
use mta_runtime_intramind.Table.{find}
use mta_runtime_intramind.Ledger.State.{
  Ledger, Clock, Root, ResourceBudget, Budget, Operation, Attempt, root_key, is_running,
}
use mta_runtime_intramind.Ledger.Budgets.{budget_of, find_resource}
use mta_runtime_intramind.Ledger.Runs.{create_root, new_root, new_resource}
use mta_runtime_intramind.Ledger.Attempts.{names}
use mta_runtime_intramind.Ledger.Balance.Invariant.{root_of, held_in, used_in, IsConsistent}
use mathlib.Core.Path.{subst}

-- The ledger with a new root.
abbrev pub admitted : RootSpec → Ledger → Ledger
admitted spec s = record s {
  roots = new_root spec ∷ s.roots;
  budgets =
      new_resource spec.root_id embedding_characters spec.embedding_budget
        (new_resource spec.root_id speech_characters spec.speech_budget s.budgets);
}

-- An empty budget of the new root.
abbrev IsFresh : RootSpec → ℕ → Budget → Type 0
IsFresh spec root b = (spec.root_id ≡ root) × (b.reserved ≡ 0) × (b.spent ≡ 0)

resource_origin :
    (root r : ℕ) (unit u : BudgetUnit) (limit : Option ℕ) (bs : List ResourceBudget) (b : Budget)
    → find_resource r u (new_resource root unit limit bs) ≡ some b
    → (find_resource r u bs ≡ some b) ⊎ ((root ≡ r) × (b.reserved ≡ 0) × (b.spent ≡ 0))
unfolding find_resource
resource_origin root r unit u none bs b e = inl e
resource_origin root r unit u (some n) bs b e = ground arith

two_resources :
    (spec : RootSpec) (root : ℕ) (u : BudgetUnit) (bs : List ResourceBudget) (b : Budget)
    → find_resource root u (
        new_resource spec.root_id embedding_characters spec.embedding_budget
          (new_resource spec.root_id speech_characters spec.speech_budget bs))
      ≡ some b
    → (find_resource root u bs ≡ some b) ⊎ IsFresh spec root b
two_resources spec root u bs b e =
    elim (resource_origin spec.root_id root embedding_characters u spec.embedding_budget _ b e) [
      | inl h ↦ resource_origin spec.root_id root speech_characters u spec.speech_budget bs b h
      | inr h ↦ inr h
    ]

-- A budget of the ledger with a new root is an old one, or that root's and empty.
admitted_origin :
    (s : Ledger) (spec : RootSpec) (root : ℕ) (unit : BudgetUnit) (b : Budget)
    → budget_of (admitted spec s) root unit ≡ some b
    → (budget_of s root unit ≡ some b) ⊎ IsFresh spec root b
unfolding budget_of find
admitted_origin s spec root tokens b e = ground arith
admitted_origin s spec root speech_characters b e =
    two_resources spec root speech_characters s.budgets b e
admitted_origin s spec root embedding_characters b e =
    two_resources spec root embedding_characters s.budgets b e

sum-zero : {A : Type 0} (f : A → ℕ) (xs : List A) → ((a : A) → f a ≡ 0) → sum f xs ≡ 0
sum-zero f [] zeros = refl
sum-zero f (x ∷ xs) zeros = ground (arith, zeros x, sum-zero f xs zeros)

unnamed : (o : Option ℕ) (root : ℕ) → (o ≡ some root → ⊥) → names o root ≡ false
unnamed none root h = refl
unnamed (some x) root h = elim (Bool-cases (x == root)) [
  | inl e ↦ absurd (h (ap some (==→eq x root e)))
  | inr e ↦ e
]

-- Nothing draws on the budgets of a root that no operation names.
held_in-unnamed :
    (operations : List Operation) (root : ℕ) (unit : BudgetUnit) (a : Attempt)
    → (root_of operations a.operation_id ≡ some root → ⊥)
    → held_in operations root unit a ≡ 0
unfolding held_in
held_in-unnamed operations root unit a h =
    ground (arith, unnamed (root_of operations a.operation_id) root h)

used_in-unnamed :
    (operations : List Operation) (root : ℕ) (unit : BudgetUnit) (a : Attempt)
    → (root_of operations a.operation_id ≡ some root → ⊥)
    → used_in operations root unit a ≡ 0
unfolding used_in
used_in-unnamed operations root unit a h =
    ground (arith, unnamed (root_of operations a.operation_id) root h)

module _ (spec : RootSpec) (s : Ledger) (new : find root_key spec.root_id s.roots ≡ none)
    (v : IsConsistent s) where
  no_operation : (root id : ℕ) → spec.root_id ≡ root → root_of s.operations id ≡ some root → ⊥
  no_operation root id same e =
      v.rooted id root e (subst (λ r. find root_key r s.roots ≡ none) same new)

  admitted_kept :
      (r : ℕ) → find root_key r (admitted spec s).roots ≡ none → find root_key r s.roots ≡ none
  unfolding find
  admitted_kept r e = ground arith

  admitted-IsConsistent : IsConsistent (admitted spec s)
  admitted-IsConsistent = record {
    balanced = record {
      held = λ root unit b e. elim (admitted_origin s spec root unit b e) [
        | inl h ↦ v.balanced.held root unit b h
        | inr (same, r, u) ↦
            r
            ∙ sym (
                sum-zero (held_in s.operations root unit) s.attempts (λ a.
                  held_in-unnamed s.operations root unit a (no_operation root a.operation_id same)))
      ];
      used = λ root unit b e. elim (admitted_origin s spec root unit b e) [
        | inl h ↦ v.balanced.used root unit b h
        | inr (same, r, u) ↦
            u
            ∙ sym (
                sum-zero (used_in s.operations root unit) s.attempts (λ a.
                  used_in-unnamed s.operations root unit a (no_operation root a.operation_id same)))
      ];
    };
    rows = v.rows;
    priced = v.priced;
    linked = v.linked;
    rooted = λ id root e h. v.rooted id root e (admitted_kept root h);
  }

pub create_root-IsConsistent :
    (c : Clock) (spec : RootSpec) (s : Ledger)
    → IsConsistent s
    → OnOk IsConsistent (create_root c spec s)
unfolding create_root
create_root-IsConsistent c spec s v = choose (find root_key spec.root_id s.roots) refl
  where
    choose :
        (o : Option Root)
        → find root_key spec.root_id s.roots ≡ o
        → OnOk IsConsistent (create_root c spec s)
    choose (some old) e =
        rw (e, create_root)
          (OnOk-guard IsConsistent (decides (RootSpec-discrete old.spec spec)) _ _ λ _. v)
    choose none e =
        rw (e, create_root)
          (OnOk-raise_if IsConsistent (leb s.max_roots (count (λ r. is_running r.state) s.roots)) _
            _
            λ _.
              OnOk-raise_if IsConsistent (leb spec.deadline c.process) _ _
                λ _. admitted-IsConsistent spec s e v)
