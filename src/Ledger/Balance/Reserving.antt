-- ===== src/Ledger/Balance/Reserving.antt =====
-- `reserve_next` keeps the books: a reservation holds nothing until it is sent.
use mta_runtime_intramind.Base.{
  ℕ, ◌+◌, ◌≡◌, ◌≢◌, refl, sym, ap, ◌∙◌, Bool, true, false, not, ◌&&◌, ◌||◌, Option, none, some,
  List, [], ◌∷◌, arith, ◌==◌, ltb, if◌then◌else◌, Result, ok, err, OnOk, OnOk-if,
}
use mta_runtime_intramind.Contracts.Operation.{BudgetUnit, budget_unit, budget_bound}
use mta_runtime_intramind.Contracts.Pool.{request_limit}
use mta_runtime_intramind.Table.{find, update, find-key}
use mta_runtime_intramind.Ledger.State.{
  Ledger, Clock, Root, Operation, Attempt, Pool, Budget, Reason, OperationState, root_budget,
  resource_budget_missing, attempt_key, operation_key, root_key, pool_key,
}
use mta_runtime_intramind.Ledger.Budgets.{budget_of}
use mta_runtime_intramind.Ledger.Events.{terminal, expire_operation}
use mta_runtime_intramind.Ledger.Attempts.{Reservation}
use mta_runtime_intramind.Ledger.Selection.{Candidate, candidates, is_waiting, due, matches, subset}
use mta_runtime_intramind.Ledger.Reserve.{
  Draw, Turn, pass, granted, new_attempt, execute, serve, wait_for, insert_grant, grant, exhausted,
  unless_exhausted, within_budget, against_budget, consider_rows, consider_root, consider_row,
  consider, consider_each, root_closed, can_reserve, reserve_from, reserve_next, last_number,
}
use mta_runtime_intramind.Ledger.Balance.Invariant.{
  root_of, spec_of, held_in, used_in, IsPriced, IsValidAttempt, IsConsistent,
}
use mta_runtime_intramind.Ledger.Balance.Columns.{budget_of-eq}
use mta_runtime_intramind.Ledger.Balance.Frame.{Frame, Frame-trans, Frame-IsConsistent}
use mta_runtime_intramind.Ledger.Balance.Quiet.{
  operations-Frame, roots-Frame, terminal-Frame, expire_operation-Frame,
}
use mathlib.Core.Option
use mathlib.Core.Path.{subst}

module _ (s : Ledger) (a : Attempt) (unheld : a.budget_held ≡ false) (unused : a.usage ≡ none)
    (valid : IsValidAttempt a) (priced : IsPriced s.operations a)
    (linked : root_of s.operations a.operation_id ≢ none) where
  abbrev listed : Ledger
  listed = record s { attempts = a ∷ s.attempts }

  adds_nothing : (root : ℕ) (unit : BudgetUnit) → held_in s.operations root unit a ≡ 0
  unfolding held_in
  adds_nothing root unit = ground arith

  uses_nothing : (root : ℕ) (unit : BudgetUnit) → used_in s.operations root unit a ≡ 0
  unfolding used_in
  uses_nothing root unit = ground arith

  row-cases :
      (P : Attempt → Type 0) (j : ℕ) (x : Attempt)
      → P a
      → (find attempt_key j s.attempts ≡ some x → P x)
      → find attempt_key j (a ∷ s.attempts) ≡ some x
      → P x
  unfolding find
  row-cases P j x here there e = choose (a.attempt_id == j) e
    where
      choose :
          (test : Bool) → (if test then some a else find attempt_key j s.attempts) ≡ some x → P x
      choose true e = let same : a ≡ x = cc in subst P same here
      choose false e = there e

  -- A row that holds and uses nothing is added.
  pub listed-IsConsistent : IsConsistent s → IsConsistent listed
  listed-IsConsistent v = record {
    balanced = record {
      held = λ root unit b e. omega (
        arith,
        v.balanced.held root unit b (sym (budget_of-eq s listed root unit refl refl) ∙ e),
        adds_nothing root unit,
      );
      used = λ root unit b e. omega (
        arith,
        v.balanced.used root unit b (sym (budget_of-eq s listed root unit refl refl) ∙ e),
        uses_nothing root unit,
      );
    };
    rows = λ j x e. row-cases IsValidAttempt j x valid (v.rows j x) e;
    priced = λ j x e. row-cases (IsPriced s.operations) j x priced (v.priced j x) e;
    linked = (linked, v.linked);
    rooted = v.rooted;
  }

injective : {A : Type 0} {x y : A} → some x ≡ some y → x ≡ y
injective e = cc

-- What a turn of the loop leaves.
abbrev pub TurnIsConsistent : Turn → Type 0
TurnIsConsistent (pass s) = IsConsistent s
TurnIsConsistent (granted s res) = IsConsistent s

module _ (c : Clock) (pool : Pool) (draw : Draw) (o : Operation) (r : Root) (s : Ledger)
    (v : IsConsistent s) (found : find operation_key o.operation_id s.operations ≡ some o) where
  abbrev moved : Ledger
  moved = record s {
    roots = update root_key o.root_id (serve c.process) s.roots;
    operations = update operation_key o.operation_id (execute draw.attempt_id) s.operations;
  }

  moved-Frame : Frame s moved
  moved-Frame = Frame-trans (roots-Frame s o.root_id (serve c.process) (λ x. refl) (λ x. refl)) (
      operations-Frame _ o.operation_id (execute draw.attempt_id) (λ x. refl) (λ x. refl)
        (λ x. refl))

  has_root : root_of moved.operations o.operation_id ≡ some o.root_id
  has_root = moved-Frame.roots o.operation_id ∙ ap (Option.map (λ (x : Operation). x.root_id)) found

  has_spec : spec_of moved.operations o.operation_id ≡ some o.spec
  has_spec = moved-Frame.specs o.operation_id ∙ ap (Option.map (λ (x : Operation). x.spec)) found

  insert_grant-IsConsistent :
      (number : ℕ) (used : Option Attempt)
      → OnOk TurnIsConsistent (insert_grant c pool draw number o r s used)
  unfolding insert_grant
  insert_grant-IsConsistent number (some old) = tt
  insert_grant-IsConsistent number none =
      listed-IsConsistent moved (new_attempt c pool draw number o) refl refl
        (record { released = λ h. absurd (cc); covered = λ h. absurd (cc); unused = λ h. refl })
        (λ spec e.
          let same : o.spec ≡ spec = injective (sym has_spec ∙ e) in
          (ap budget_bound same, ap budget_unit same))
        (λ h. absurd (cc (sym has_root ∙ h))) (Frame-IsConsistent moved-Frame v)

  grant-IsConsistent : OnOk TurnIsConsistent (grant c pool draw o r s)
  unfolding grant
  grant-IsConsistent =
      insert_grant-IsConsistent (last_number o.operation_id s.attempts + 1)
        (find attempt_key draw.attempt_id s.attempts)

  ended-IsConsistent :
      (reason : Reason) → IsConsistent (terminal c o.operation_id OperationState.failed reason s)
  ended-IsConsistent reason = Frame-IsConsistent (terminal-Frame c o.operation_id _ reason s) v

  unless_exhausted-IsConsistent :
      (b : Budget) (reason : Option Reason)
      → OnOk TurnIsConsistent (unless_exhausted c pool draw o r s b reason)
  unfolding unless_exhausted
  unless_exhausted-IsConsistent b (some reason) = ended-IsConsistent reason
  unless_exhausted-IsConsistent b none =
      OnOk-if TurnIsConsistent (ltb b.limit (b.spent + b.reserved + budget_bound o.spec)) _ _
        (λ _.
          Frame-IsConsistent
            (operations-Frame s o.operation_id (wait_for root_budget) (λ x. refl) (λ x. refl)
              (λ x. refl))
            v)
        (λ _. grant-IsConsistent)

  within_budget-IsConsistent :
      (b : Option Budget) → OnOk TurnIsConsistent (within_budget c pool draw o r s b)
  unfolding within_budget
  within_budget-IsConsistent none = ended-IsConsistent resource_budget_missing
  within_budget-IsConsistent (some b) = unless_exhausted-IsConsistent b (exhausted o r b)

  consider_rows-IsConsistent : OnOk TurnIsConsistent (consider_rows c pool draw o r s)
  unfolding consider_rows against_budget
  consider_rows-IsConsistent =
      OnOk-if TurnIsConsistent
        (root_closed c r || not (is_waiting o.state && due o.retry_at c.process)) _ _ (λ _. v)
        λ _.
          OnOk-if TurnIsConsistent (expire_operation c o.spec c.database s).1 _ _
            (λ _. Frame-IsConsistent (expire_operation-Frame c o.spec c.database s) v)
            λ _.
              OnOk-if TurnIsConsistent
                (not (matches o.spec.capacity_profile_id pool.spec.profile_id)
                  || not (subset o.spec.required_capabilities pool.spec.capabilities)
                  || ltb (request_limit pool.spec.resource) (budget_bound o.spec))
                _ _ (λ _. v)
                (λ _. within_budget-IsConsistent (budget_of s o.root_id (budget_unit o.spec)))

module _ (c : Clock) (pool : Pool) (draw : Draw) where
  consider_root-IsConsistent :
      (o : Operation) (s : Ledger) (r : Option Root)
      → IsConsistent s
      → find operation_key o.operation_id s.operations ≡ some o
      → OnOk TurnIsConsistent (consider_root c pool draw o s r)
  unfolding consider_root
  consider_root-IsConsistent o s none v found = v
  consider_root-IsConsistent o s (some r) v found =
      consider_rows-IsConsistent c pool draw o r s v found

  consider_row-IsConsistent :
      (id : ℕ) (s : Ledger) (o : Option Operation)
      → IsConsistent s
      → find operation_key id s.operations ≡ o
      → OnOk TurnIsConsistent (consider_row c pool draw s o)
  unfolding consider_row
  consider_row-IsConsistent id s none v found = v
  consider_row-IsConsistent id s (some o) v found =
      consider_root-IsConsistent o s (find root_key o.root_id s.roots) v (
        subst (λ k. find operation_key k s.operations ≡ some o)
          (sym (find-key operation_key id s.operations o found)) found)

  consider-IsConsistent :
      (id : ℕ) (s : Ledger) → IsConsistent s → OnOk TurnIsConsistent (consider c pool draw id s)
  unfolding consider
  consider-IsConsistent id s v =
      consider_row-IsConsistent id s (find operation_key id s.operations) v refl

  consider_each-IsConsistent :
      (xs : List Candidate) (s : Ledger)
      → IsConsistent s
      → OnOk (λ x. IsConsistent x.0) (consider_each c pool draw xs s)
  unfolding consider_each
  consider_each-IsConsistent [] s v = v
  consider_each-IsConsistent (x ∷ xs) s v =
      choose (consider c pool draw x.operation_id s) (consider-IsConsistent x.operation_id s v)
        (consider_each-IsConsistent xs)
    where
      choose :
          (turn : Result Turn)
          → OnOk TurnIsConsistent turn
          → ((s : Ledger)
              → IsConsistent s
              → OnOk (λ x. IsConsistent x.0) (consider_each c pool draw xs s))
          → OnOk
              (λ x. IsConsistent x.0)
              (elim turn as (λ t. Result (Ledger × Option Reservation)) [
                | err e ↦ err e
                | ok (granted s' res) ↦ ok (s', some res)
                | ok (pass s') ↦ consider_each c pool draw xs s'
              ])
      choose (err e) h rest = tt
      choose (ok (granted s' res)) h rest = h
      choose (ok (pass s')) h rest = rest s' h

reserve_from-IsConsistent :
    (c : Clock) (draw : Draw) (s : Ledger) (pool : Option Pool)
    → IsConsistent s
    → OnOk (λ x. IsConsistent x.0) (reserve_from c draw s pool)
unfolding reserve_from
reserve_from-IsConsistent c draw s none v = v
reserve_from-IsConsistent c draw s (some pool) v =
    OnOk-if (λ x. IsConsistent x.0) (can_reserve pool s) _ _
      (λ _. consider_each-IsConsistent c pool draw (candidates c pool s) s v) (λ _. v)

pub reserve_next-IsConsistent :
    (c : Clock) (pool_id : ℕ) (draw : Draw) (s : Ledger)
    → IsConsistent s
    → OnOk (λ x. IsConsistent x.0) (reserve_next c pool_id draw s)
unfolding reserve_next
reserve_next-IsConsistent c pool_id draw s v =
    reserve_from-IsConsistent c draw s (find pool_key pool_id s.pools) v
