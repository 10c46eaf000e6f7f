-- ===== src/Ledger/Balance/Settling.antt =====
-- `_settle` moves the bound of one attempt out of `reserved`, and its usage into `spent`.
use mta_runtime_intramind.Base.{
  ℕ, ◌≡◌, refl, sym, ◌∙◌, Bool, true, false, Option, none, some, arith, ltb, leb, if◌then◌else◌,
  OnOk, OnOk-if, OnOk-guard, OnOk-or_raise, ok, ◌>>=◌, ◌==◌,
}
use mta_runtime_intramind.Base.Int.{ℤ, pos, negsuc}
use mta_runtime_intramind.Contracts.Operation.{
  BudgetUnit, tokens, speech_characters, embedding_characters,
}
use mta_runtime_intramind.Table.{find, update, update-same, find-update}
use mta_runtime_intramind.Ledger.State.{Ledger, Clock, Budget, Attempt, Root, root_key, attempt_key}
use mta_runtime_intramind.Ledger.Budgets.{budget_of, adjust_budget}
use mta_runtime_intramind.Ledger.Settle.{
  settle, settle_held, observe_usage, spend, record_usage, overspend, charged, is_none,
}
use mta_runtime_intramind.Ledger.Balance.Invariant.{root_of, IsBalanced}
use mta_runtime_intramind.Ledger.Balance.Columns.{budget_of-eq}
use mta_runtime_intramind.Ledger.Balance.Frame.{Frame, Frame-refl, Frame-trans, Frame-IsBalanced}
use mta_runtime_intramind.Ledger.Balance.Quiet.{roots-Frame, none-update}
use mta_runtime_intramind.Ledger.Balance.Rebook.{
  rebook, rebook-attempts, rebook-operations, rebook-IsBalanced,
}

pools-Frame : (s : Ledger) (ps : _) → Frame s (record s { pools = ps })
pools-Frame s ps = record {
  budgets = λ root unit. budget_of-eq s (record s { pools = ps }) root unit refl refl;
  attempts = refl;
  roots = λ id. refl;
  specs = λ id. refl;
  kept = λ root e. e;
}

overspend-key : (c : Clock) (r : Root) → (overspend c r).root_id ≡ r.root_id
overspend-key c r = ground arith

overspend-budget : (c : Clock) (r : Root) → (overspend c r).budget ≡ r.budget
overspend-budget c r = ground arith

overspent-Frame :
    (c : Clock) (root : ℕ) (over : Bool) (s : Ledger)
    → Frame s
        (record s { roots = if over then update root_key root (overspend c) s.roots else s.roots })
overspent-Frame c root true s =
    roots-Frame s root (overspend c) (overspend-key c) (overspend-budget c)
overspent-Frame c root false s = Frame-refl s

observe_usage-Frame :
    (c : Clock) (a : Attempt) (root usage : ℕ) (b : Budget) (s : Ledger)
    → Frame s (observe_usage c a root usage b s)
unfolding observe_usage
observe_usage-Frame c a root usage b s =
    Frame-trans (overspent-Frame c root (ltb b.limit b.spent) s) (pools-Frame _ _)

-- An adjusted budget loses no root.
pub adjust_budget-kept :
    (root r : ℕ) (unit : BudgetUnit) (f : Budget → Budget) (s : Ledger)
    → find root_key r (adjust_budget root unit f s).roots ≡ none
    → find root_key r s.roots ≡ none
unfolding adjust_budget
adjust_budget-kept root r tokens f s e =
    none-update (root == r) (λ (x : Root). record x { budget = f x.budget })
      (find root_key r s.roots)
      (rw
        (find-update root_key r root (λ (x : Root). record x { budget = f x.budget }) s.roots
          (λ x. refl))
        at e)
adjust_budget-kept root r speech_characters f s e = e
adjust_budget-kept root r embedding_characters f s e = e

-- What `_settle` leaves behind: balanced books, and a row that holds no budget.
pub record Settled (a : Attempt) (s t : Ledger) : Type 0 where
  pub balanced : IsBalanced t
  pub operations : t.operations ≡ s.operations
  pub kept : (r : ℕ) → find root_key r t.roots ≡ none → find root_key r s.roots ≡ none
  pub row : Attempt → Attempt
  pub attempts : t.attempts ≡ update attempt_key a.attempt_id row s.attempts
  pub row_key : (x : Attempt) → (row x).attempt_id ≡ x.attempt_id
  pub row_operation : (x : Attempt) → (row x).operation_id ≡ x.operation_id
  pub row_unit : (row a).budget_unit ≡ a.budget_unit
  pub row_bound : (row a).budget_bound ≡ a.budget_bound
  pub row_compute : (row a).compute_held ≡ a.compute_held
  pub row_budget : (row a).budget_held ≡ false

module _ (c : Clock) (a : Attempt) (root : ℕ) (s : Ledger)
    (found : find attempt_key a.attempt_id s.attempts ≡ some a)
    (drawn : root_of s.operations a.operation_id ≡ some root) (balanced : IsBalanced s) where
  -- The ledger that the UPDATEs of `_settle` leave.
  booked-Settled :
      (usage : ℕ) (estimated : Bool) (b : Budget)
      → a.budget_held ≡ true
      → a.usage ≡ none
      → Settled a s (
          observe_usage c a root usage b (
            rebook s a.attempt_id
              (record_usage usage estimated)
              root
              a.budget_unit
              (spend a.budget_bound usage)))
  unfolding observe_usage
  booked-Settled usage estimated b held unused =
      let g = record_usage usage estimated in
      let f = spend a.budget_bound usage in
      let quiet =
        observe_usage-Frame c a root usage b (rebook s a.attempt_id g root a.budget_unit f) in
      record {
        balanced = Frame-IsBalanced quiet (
            rebook-IsBalanced s a.attempt_id a g root a.budget_unit f found refl drawn refl refl
              (λ x covered. ground arith) balanced);
        operations =
            rebook-operations s a.attempt_id a g root a.budget_unit f found refl drawn refl refl;
        kept = λ r e. adjust_budget-kept root r a.budget_unit f _ (quiet.kept r e);
        row = g;
        attempts =
            quiet.attempts
            ∙ rebook-attempts s a.attempt_id a g root a.budget_unit f found refl drawn refl refl;
        row_key = λ x. refl;
        row_operation = λ x. refl;
        row_unit = refl;
        row_bound = refl;
        row_compute = refl;
        row_budget = refl;
      }

  settle_held-Settled :
      (usage : ℕ) (estimated : Bool)
      → a.budget_held ≡ true
      → a.usage ≡ none
      → OnOk (Settled a s) (settle_held c a root usage estimated s)
  unfolding settle_held
  settle_held-Settled usage estimated held unused =
      OnOk-or_raise (Settled a s) (budget_of s root a.budget_unit) _ _ λ b e.
        OnOk-guard (Settled a s) (leb a.budget_bound b.reserved) _ _
          λ k. booked-Settled usage estimated (spend a.budget_bound usage b) held unused

  unheld-Settled : a.budget_held ≡ false → Settled a s s
  unheld-Settled held = record {
    balanced = balanced;
    operations = refl;
    kept = λ r e. e;
    row = λ x. x;
    attempts = sym (update-same attempt_key a.attempt_id s.attempts);
    row_key = λ x. refl;
    row_operation = λ x. refl;
    row_unit = refl;
    row_bound = refl;
    row_compute = refl;
    row_budget = held;
  }

  charged-Settled :
      (usage : Option ℤ)
      → a.budget_held ≡ true
      → a.usage ≡ none
      → OnOk (Settled a s) (charged a usage >>= λ n. settle_held c a root n (is_none usage) s)
  charged-Settled none held unused = settle_held-Settled a.budget_bound true held unused
  charged-Settled (some (pos n)) held unused = settle_held-Settled n false held unused
  charged-Settled (some (negsuc n)) held unused = tt

  pub settle-Settled :
      (usage : Option ℤ)
      → (a.budget_held ≡ true → a.usage ≡ none)
      → OnOk (Settled a s) (settle c a root usage s)
  unfolding settle
  settle-Settled usage unused =
      OnOk-if (Settled a s) a.budget_held
        (charged a usage >>= λ n. settle_held c a root n (is_none usage) s) (ok s)
        (λ held. charged-Settled usage held (unused held)) (λ held. unheld-Settled held)
