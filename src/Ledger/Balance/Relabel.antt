-- ===== src/Ledger/Balance/Relabel.antt =====
-- A change of one attempt's row that moves no budget.
use mta_runtime_intramind.Base.{
  ℕ, ◌≡◌, refl, sym, ap, ◌∙◌, Bool, true, false, none, some, List, [], ◌∷◌, arith, ◌==◌,
  if◌then◌else◌, ==→eq,
}
use mta_runtime_intramind.Contracts.Operation.{BudgetUnit}
use mta_runtime_intramind.Table.{find, update, find-update, sum-update}
use mta_runtime_intramind.Ledger.State.{Ledger, Attempt, Operation, attempt_key, root_key}
use mta_runtime_intramind.Ledger.Balance.Invariant.{
  root_of, spec_of, held_in, used_in, IsPriced, IsValidAttempt, AllLinked, IsBalanced, IsConsistent,
}
use mta_runtime_intramind.Ledger.Balance.Columns.{budget_of-eq}
use mathlib.Core.Option
use mathlib.Core.Path.{subst}

abbrev pub with_attempts : Ledger → ℕ → (Attempt → Attempt) → Ledger
with_attempts s id g = record s { attempts = update attempt_key id g s.attempts }

-- The columns that the books read.
pub record SameBooks (a b : Attempt) : Type 0 where
  pub operation : b.operation_id ≡ a.operation_id
  pub unit : b.budget_unit ≡ a.budget_unit
  pub bound : b.budget_bound ≡ a.budget_bound
  pub held : b.budget_held ≡ a.budget_held
  pub usage : b.usage ≡ a.usage

pub AllLinked-update :
    (operations : List Operation) (id : ℕ) (g : Attempt → Attempt) (rows : List Attempt)
    → ((x : Attempt) → (g x).operation_id ≡ x.operation_id)
    → AllLinked operations rows
    → AllLinked operations (update attempt_key id g rows)
unfolding update
AllLinked-update operations id g [] keeps l = tt
AllLinked-update operations id g (a ∷ rows) keeps l =
    choose (AllLinked-update operations id g rows keeps l.1) (a.attempt_id == id)
  where
    choose :
        AllLinked operations (update attempt_key id g rows)
        → (test : Bool)
        → AllLinked operations (if test then g a ∷ rows else a ∷ update attempt_key id g rows)
    choose tail true = (λ e. l.0 (ap (root_of operations) (sym (keeps a)) ∙ e), l.1)
    choose tail false = (l.0, tail)

-- Every row has a property if the changed one has, and the others had.
pub rows-update :
    (P : Attempt → Type 0) (rows : List Attempt) (id : ℕ) (g : Attempt → Attempt) (a : Attempt)
    → find attempt_key id rows ≡ some a
    → ((x : Attempt) → (g x).attempt_id ≡ x.attempt_id)
    → P (g a)
    → ((j : ℕ) (x : Attempt) → (id == j) ≡ false → find attempt_key j rows ≡ some x → P x)
    → (j : ℕ) (x : Attempt) → find attempt_key j (update attempt_key id g rows) ≡ some x
    → P x
rows-update P rows id g a found key changed others j x e =
    choose (id == j) refl (sym (find-update attempt_key j id g rows key) ∙ e)
  where
    choose :
        (test : Bool)
        → (id == j) ≡ test
        → (if test then Option.map g (find attempt_key j rows) else find attempt_key j rows)
          ≡ some x
        → P x
    choose true same e =
        let back : some x ≡ some (g a) =
          sym (ap (λ k. Option.map g (find attempt_key k rows)) (==→eq id j same) ∙ e)
          ∙ ap (Option.map g) found in
        let row : g a ≡ x = cc in subst P row changed
    choose false other e = others j x other e

module _ (s : Ledger) (id : ℕ) (g : Attempt → Attempt) (a : Attempt)
    (found : find attempt_key id s.attempts ≡ some a) (same : SameBooks a (g a)) where
  same_held :
      (root : ℕ) (unit : BudgetUnit)
      → held_in s.operations root unit (g a) ≡ held_in s.operations root unit a
  unfolding held_in
  same_held root unit = rw (same.operation, same.unit, same.bound, same.held)

  same_used :
      (root : ℕ) (unit : BudgetUnit)
      → used_in s.operations root unit (g a) ≡ used_in s.operations root unit a
  unfolding used_in
  same_used root unit = rw (same.operation, same.unit, same.usage)

  pub relabel-IsBalanced : IsBalanced s → IsBalanced (with_attempts s id g)
  relabel-IsBalanced v = record {
    held = λ root unit b e.
        let h = held_in s.operations root unit in
        omega (
          arith,
          v.held root unit b (sym (budget_of-eq s (with_attempts s id g) root unit refl refl) ∙ e),
          same_held root unit,
          sum-update attempt_key id g h s.attempts a found,
        );
    used = λ root unit b e.
        let h = used_in s.operations root unit in
        omega (
          arith,
          v.used root unit b (sym (budget_of-eq s (with_attempts s id g) root unit refl refl) ∙ e),
          same_used root unit,
          sum-update attempt_key id g h s.attempts a found,
        );
  }

  same-IsPriced : IsPriced s.operations a → IsPriced s.operations (g a)
  same-IsPriced v spec e =
      let (bound, unit) = v spec (ap (spec_of s.operations) (sym same.operation) ∙ e) in
      (same.bound ∙ bound, same.unit ∙ unit)

  -- The ledger stays consistent if the changed row is valid.
  pub relabel-IsConsistent :
      ((x : Attempt) → (g x).attempt_id ≡ x.attempt_id)
      → ((x : Attempt) → (g x).operation_id ≡ x.operation_id)
      → IsValidAttempt (g a)
      → IsConsistent s
      → IsConsistent (with_attempts s id g)
  relabel-IsConsistent key operation valid v = record {
    balanced = relabel-IsBalanced v.balanced;
    rows =
        rows-update IsValidAttempt s.attempts id g a found key valid (λ j x other e. v.rows j x e);
    priced =
        rows-update (IsPriced s.operations) s.attempts id g a found key
          (same-IsPriced (v.priced id a found)) (λ j x other e. v.priced j x e);
    linked = AllLinked-update s.operations id g s.attempts operation v.linked;
    rooted = v.rooted;
  }

-- A ledger that differs by one row, and by balanced books, is consistent if that row is in order.
module _ (s t : Ledger) (id : ℕ) (g : Attempt → Attempt) (a : Attempt)
    (found : find attempt_key id s.attempts ≡ some a)
    (key : (x : Attempt) → (g x).attempt_id ≡ x.attempt_id)
    (operation : (x : Attempt) → (g x).operation_id ≡ x.operation_id)
    (attempts : t.attempts ≡ update attempt_key id g s.attempts)
    (operations : t.operations ≡ s.operations) where
  pub assemble-IsConsistent :
      ((r : ℕ) → find root_key r t.roots ≡ none → find root_key r s.roots ≡ none)
      → IsBalanced t
      → IsValidAttempt (g a)
      → IsPriced s.operations (g a)
      → IsConsistent s
      → IsConsistent t
  assemble-IsConsistent kept balanced valid priced v = record {
    balanced = balanced;
    rows = λ j x e.
        rows-update IsValidAttempt s.attempts id g a found key valid (λ j x other e. v.rows j x e) j
          x (sym (ap (find attempt_key j) attempts) ∙ e);
    priced = λ j x e spec h.
        rows-update (IsPriced s.operations) s.attempts id g a found key priced
          (λ j x other e. v.priced j x e) j x (sym (ap (find attempt_key j) attempts) ∙ e) spec
          (sym (ap (λ os. spec_of os x.operation_id) operations) ∙ h);
    linked =
        subst (λ os. AllLinked os t.attempts) (sym operations)
          (subst (AllLinked s.operations) (sym attempts)
            (AllLinked-update s.operations id g s.attempts operation v.linked));
    rooted = λ k r e h. v.rooted k r (sym (ap (λ os. root_of os k) operations) ∙ e) (kept r h);
  }
