-- ===== src/Ledger/Balance/Frame.antt =====
-- Operations that touch no budget, no attempt and no foreign key leave the books as they are.
use mta_runtime_intramind.Base.{ℕ, ◌≡◌, refl, sym, ap, ◌∙◌, subst, none, List, [], ◌∷◌, sum}
use mta_runtime_intramind.Contracts.Operation.{BudgetUnit}
use mta_runtime_intramind.Table.{find, sum-eq}
use mta_runtime_intramind.Ledger.State.{Ledger, Operation, Attempt, root_key, attempt_key}
use mta_runtime_intramind.Ledger.Budgets.{budget_of}
use mta_runtime_intramind.Ledger.Balance.Invariant.{
  root_of, spec_of, held_in, used_in, AllLinked, IsBalanced, IsConsistent,
}

-- Every operation keeps its root, and its specification.
abbrev pub SameRoots : List Operation → List Operation → Type 0
SameRoots xs ys = (id : ℕ) → root_of ys id ≡ root_of xs id

abbrev pub SameSpecs : List Operation → List Operation → Type 0
SameSpecs xs ys = (id : ℕ) → spec_of ys id ≡ spec_of xs id

pub record Frame (s t : Ledger) : Type 0 where
  pub budgets : (root : ℕ) (unit : BudgetUnit) → budget_of t root unit ≡ budget_of s root unit
  pub attempts : t.attempts ≡ s.attempts
  pub roots : SameRoots s.operations t.operations
  pub specs : SameSpecs s.operations t.operations
  pub kept : (root : ℕ) → find root_key root t.roots ≡ none → find root_key root s.roots ≡ none

pub Frame-refl : (s : Ledger) → Frame s s
Frame-refl s = record {
  budgets = λ root unit. refl;
  attempts = refl;
  roots = λ id. refl;
  specs = λ id. refl;
  kept = λ root e. e;
}

pub Frame-trans : {s t u : Ledger} → Frame s t → Frame t u → Frame s u
Frame-trans f g = record {
  budgets = λ root unit. g.budgets root unit ∙ f.budgets root unit;
  attempts = g.attempts ∙ f.attempts;
  roots = λ id. g.roots id ∙ f.roots id;
  specs = λ id. g.specs id ∙ f.specs id;
  kept = λ root e. f.kept root (g.kept root e);
}

pub held_in-roots :
    (xs ys : List Operation) (root : ℕ) (unit : BudgetUnit) (a : Attempt)
    → root_of ys a.operation_id ≡ root_of xs a.operation_id
    → held_in ys root unit a ≡ held_in xs root unit a
unfolding held_in
held_in-roots xs ys root unit a same = rw same

pub used_in-roots :
    (xs ys : List Operation) (root : ℕ) (unit : BudgetUnit) (a : Attempt)
    → root_of ys a.operation_id ≡ root_of xs a.operation_id
    → used_in ys root unit a ≡ used_in xs root unit a
unfolding used_in
used_in-roots xs ys root unit a same = rw same

pub AllLinked-roots :
    (xs ys : List Operation) (rows : List Attempt)
    → SameRoots xs ys
    → AllLinked xs rows
    → AllLinked ys rows
AllLinked-roots xs ys [] same l = tt
AllLinked-roots xs ys (a ∷ rows) same l =
    (λ e. l.0 (sym (same a.operation_id) ∙ e), AllLinked-roots xs ys rows same l.1)

pub Frame-IsBalanced : {s t : Ledger} → Frame s t → IsBalanced s → IsBalanced t
Frame-IsBalanced {s} {t} f v = record {
  held = λ root unit b e.
      v.held root unit b (sym (f.budgets root unit) ∙ e)
      ∙ sym (
          sum-eq _ _ s.attempts
            (λ a. held_in-roots s.operations t.operations root unit a (f.roots a.operation_id)))
      ∙ sym (ap (sum (held_in t.operations root unit)) f.attempts);
  used = λ root unit b e.
      v.used root unit b (sym (f.budgets root unit) ∙ e)
      ∙ sym (
          sum-eq _ _ s.attempts
            (λ a. used_in-roots s.operations t.operations root unit a (f.roots a.operation_id)))
      ∙ sym (ap (sum (used_in t.operations root unit)) f.attempts);
}

-- The books stay consistent along a frame.
pub Frame-IsConsistent : {s t : Ledger} → Frame s t → IsConsistent s → IsConsistent t
Frame-IsConsistent {s} {t} f v = record {
  balanced = Frame-IsBalanced f v.balanced;
  rows = λ id a e. v.rows id a (sym (ap (find attempt_key id) f.attempts) ∙ e);
  priced = λ id a e spec h.
      v.priced id a (sym (ap (find attempt_key id) f.attempts) ∙ e) spec
        (sym (f.specs a.operation_id) ∙ h);
  linked =
      subst (AllLinked t.operations) (sym f.attempts)
        (AllLinked-roots s.operations t.operations s.attempts f.roots v.linked);
  rooted = λ id root e h. v.rooted id root (sym (f.roots id) ∙ e) (f.kept root h);
}
