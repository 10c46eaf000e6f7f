-- ===== src/Ledger/Progress/Grants.antt =====
-- `reserve_next` of store.py: how its loop moves the rows, and what a grant has established.
use mta_runtime_intramind.Base.{
  ℕ, ◌+◌, ◌≤◌, ◌<◌, ◌≡◌, refl, sym, ap, ◌∙◌, subst, Bool, true, false, not, ◌&&◌, ◌||◌, Option,
  none, some, List, [], ◌∷◌, arith, ltb, ==_refl, Result, ok, err, OnOk, OnOk-if,
}
use mta_runtime_intramind.Contracts.Operation.{budget_unit, budget_bound}
use mta_runtime_intramind.Contracts.Pool.{request_limit}
use mta_runtime_intramind.Table.{find, update, find-update, find-key}
use mta_runtime_intramind.Ledger.State.{
  Ledger, Clock, Root, Operation, OperationState, Attempt, Pool, Budget, Reason, root_budget,
  resource_budget_missing, is_running, is_reserved, is_executing, is_terminal, root_key,
  operation_key, attempt_key, pool_key,
}
use mta_runtime_intramind.Ledger.Budgets.{budget_of}
use mta_runtime_intramind.Ledger.Events.{terminal, expire_operation}
use mta_runtime_intramind.Ledger.Attempts.{Reservation, Joined, send_deadline}
use mta_runtime_intramind.Ledger.Selection.{Candidate, candidates, is_waiting, due, matches, subset}
use mta_runtime_intramind.Ledger.Reserve.{
  Draw, new_attempt, execute, serve, wait_for, reservation, Turn, pass, granted, grant_ledger,
  insert_grant, grant, last_number, exhausted, unless_exhausted, within_budget, against_budget,
  root_closed, consider_rows, consider_root, consider_row, consider, consider_each, can_reserve,
  reserve_from, reserve_next,
}
use mta_runtime_intramind.Ledger.Owned.{IsOwned}
use mta_runtime_intramind.Ledger.Balance.Columns.{budget_of-update_root, budget_of-eq}
use mta_runtime_intramind.Ledger.Progress.Steps.{
  Moves, Moves-refl, Moves-trans, Moves-root, Moves-operation, Moves-new_attempt,
}
use mta_runtime_intramind.Ledger.Progress.Parts.{terminal-Moves, expire_operation-Moves}

-- What a reservation stands for in the ledger that it was granted in.
pub record IsGranted (c : Clock) (lease : ℕ) (res : Reservation) (t : Ledger) : Type 0 where
  pub row : Joined
  -- the reservation passes the fence
  pub owned : IsOwned res t row
  -- it tells the deadline of its attempt, which is leased from the grant on
  pub deadline : send_deadline row ≡ res.attempt_deadline
  pub leased : row.attempt.lease_expires_at ≡ c.process + lease
  -- its attempt has not been sent and holds nothing
  pub unsent : is_reserved row.attempt.state ≡ true
  pub executing : is_executing row.operation.state ≡ true
  pub free : (row.attempt.compute_held ≡ false) × (row.attempt.budget_held ≡ false)
  -- the root is open, and there are sends left
  pub running : is_running row.root.state ≡ true
  pub wanted : row.root.cancel_requested ≡ false
  pub live : c.process < row.root.deadline
  pub tries :
      (row.operation.attempts < row.operation.spec.max_attempts)
      × (row.root.attempts < row.root.spec.max_attempts)
  -- the budget has room for the send
  pub budget : Budget
  pub found : budget_of t row.operation.root_id (budget_unit row.operation.spec) ≡ some budget
  pub covered : budget.spent + budget.reserved + budget_bound row.operation.spec ≤ budget.limit

-- From the ledger at the start, each turn moves rows on, and a grant is as above.
abbrev pub Turned : Clock → ℕ → Ledger → Turn → Type 0
Turned c lease s (pass t) = Moves s t
Turned c lease s (granted t res) = Moves s t × IsGranted c lease res t

abbrev pub Reserved : Clock → ℕ → Ledger → Ledger × Option Reservation → Type 0
Reserved c lease s (t, none) = Moves s t
Reserved c lease s (t, some res) = Moves s t × IsGranted c lease res t

waiting-open : (state : OperationState) → is_waiting state ≡ true → is_terminal state ≡ false
waiting-open state e = ground arith

same_operation : (o : Option Operation) (a b : Operation) → o ≡ some a → o ≡ some b → b ≡ a
same_operation o a b p q = cc

exhausted-tries :
    (o : Operation) (r : Root) (b : Budget)
    → exhausted o r b ≡ none
    → (o.attempts < o.spec.max_attempts) × (r.attempts < r.spec.max_attempts)
unfolding exhausted
exhausted-tries o r b e = (ground arith, ground arith)

module _ (c : Clock) (pool : Pool) (draw : Draw) (o : Operation) (r : Root) (s : Ledger)
    (found : find operation_key o.operation_id s.operations ≡ some o)
    (found_root : find root_key o.root_id s.roots ≡ some r) where
  abbrev served : Ledger
  served = record s {
    roots = update root_key o.root_id (serve c.process) s.roots;
    operations = update operation_key o.operation_id (execute draw.attempt_id) s.operations;
  }

  served-Moves : is_waiting o.state ≡ true → Moves s served
  served-Moves waiting =
      Moves-trans
        (Moves-root s o.root_id (serve c.process) (λ x. refl)
          (λ x _. record {
            spec = refl;
            tenant = refl;
            attempts = omega arith;
            final = λ e. (refl, refl);
          }))
        (Moves-operation _ o.operation_id (execute draw.attempt_id) (λ x. refl)
          λ x e. record {
            root = refl;
            spec = refl;
            attempts = omega arith;
            final = λ h. absurd (
                cc (
                  waiting-open o.state waiting,
                  ap (λ (y : Operation). is_terminal y.state) (same_operation _ o x found e),
                ));
          })

  abbrev granted_row : ℕ → Joined
  granted_row number = record {
    attempt = new_attempt c pool draw number o;
    operation = execute draw.attempt_id o;
    root = serve c.process r;
  }

  granted_row-IsOwned :
      (number : ℕ)
      → IsOwned
          (reservation c pool draw number o r)
          (grant_ledger c pool draw number o s)
          (granted_row number)
  unfolding find
  granted_row-IsOwned number = record {
    joined = record {
      attempt = rw (==_refl draw.attempt_id) refl;
      operation =
          rw
            (
              find-update operation_key o.operation_id o.operation_id (execute draw.attempt_id)
                  s.operations (λ x. refl),
              ==_refl o.operation_id,
              found,
            )
            refl;
      root =
          rw
            (
              find-update root_key o.root_id o.root_id (serve c.process) s.roots (λ x. refl),
              ==_refl o.root_id,
              found_root,
            )
            refl;
    };
    fenced = rw (==_refl draw.owner_id, ==_refl number, ==_refl draw.attempt_id) refl;
  }

  budget_of-granted :
      (number : ℕ) (b : Budget)
      → budget_of s o.root_id (budget_unit o.spec) ≡ some b
      → budget_of (grant_ledger c pool draw number o s) o.root_id (budget_unit o.spec) ≡ some b
  budget_of-granted number b e =
      budget_of-update_root o.root_id o.root_id (budget_unit o.spec) (serve c.process)
        (record (grant_ledger c pool draw number o s) { roots = s.roots }) (λ x. refl) (λ x. refl)
      ∙ budget_of-eq s _ o.root_id (budget_unit o.spec) refl refl
      ∙ e

  module _ (waiting : is_waiting o.state ≡ true) (open_root : root_closed c r ≡ false) (b : Budget)
      (afford : budget_of s o.root_id (budget_unit o.spec) ≡ some b) where
    grant-Turned :
        exhausted o r b ≡ none
        → ltb b.limit (b.spent + b.reserved + budget_bound o.spec) ≡ false
        → OnOk (Turned c draw.lease s) (grant c pool draw o r s)
    unfolding grant
    grant-Turned tries room = listed (find attempt_key draw.attempt_id s.attempts) refl
      where
        number : ℕ
        number = last_number o.operation_id s.attempts + 1

        sends : (o.attempts < o.spec.max_attempts) × (r.attempts < r.spec.max_attempts)
        sends = exhausted-tries o r b tries

        listed :
            (used : Option Attempt)
            → find attempt_key draw.attempt_id s.attempts ≡ used
            → OnOk (Turned c draw.lease s) (insert_grant c pool draw number o r s used)
        listed (some old) e = tt
        listed none e = (
          Moves-trans (served-Moves waiting)
              (Moves-new_attempt served (new_attempt c pool draw number o) e),
          record {
            row = granted_row number;
            owned = granted_row-IsOwned number;
            deadline = refl;
            leased = refl;
            unsent = refl;
            executing = refl;
            free = (refl, refl);
            running = ground arith;
            wanted = ground arith;
            live = ground arith;
            tries = sends;
            budget = b;
            found = budget_of-granted number b afford;
            covered = ground arith;
          },
        )

  ended-Turned :
      (reason : Reason) → Moves s (terminal c o.operation_id OperationState.failed reason s)
  ended-Turned reason = terminal-Moves c o.operation_id _ reason s

  module _ (waiting : is_waiting o.state ≡ true) (open_root : root_closed c r ≡ false) where
    unless_exhausted-Turned :
        (b : Budget) (reason : Option Reason)
        → budget_of s o.root_id (budget_unit o.spec) ≡ some b
        → exhausted o r b ≡ reason
        → OnOk (Turned c draw.lease s) (unless_exhausted c pool draw o r s b reason)
    unfolding unless_exhausted
    unless_exhausted-Turned b (some reason) afford e = ended-Turned reason
    unless_exhausted-Turned b none afford e =
        OnOk-if (Turned c draw.lease s) (ltb b.limit (b.spent + b.reserved + budget_bound o.spec)) _
          _
          (λ _.
            Moves-operation s o.operation_id (wait_for root_budget) (λ x. refl)
              (λ x _. record {
                root = refl;
                spec = refl;
                attempts = omega arith;
                final = λ h. (refl, refl);
              }))
          (λ room. grant-Turned waiting open_root b afford e room)

    within_budget-Turned :
        (b : Option Budget)
        → budget_of s o.root_id (budget_unit o.spec) ≡ b
        → OnOk (Turned c draw.lease s) (within_budget c pool draw o r s b)
    unfolding within_budget
    within_budget-Turned none e = ended-Turned resource_budget_missing
    within_budget-Turned (some b) e = unless_exhausted-Turned b (exhausted o r b) e refl

  closed-open : (x y : Bool) → (x || not y) ≡ false → (x ≡ false) × (y ≡ true)
  closed-open x y e = (ground arith, ground arith)

  and-left : (x y : Bool) → (x && y) ≡ true → x ≡ true
  and-left x y e = ground arith

  consider_rows-Turned : OnOk (Turned c draw.lease s) (consider_rows c pool draw o r s)
  unfolding consider_rows against_budget
  consider_rows-Turned =
      OnOk-if (Turned c draw.lease s)
        (root_closed c r || not (is_waiting o.state && due o.retry_at c.process)) _ _
        (λ _. Moves-refl s)
        λ h.
          let (open_root, ready) =
            closed-open (root_closed c r) (is_waiting o.state && due o.retry_at c.process) h in
          OnOk-if (Turned c draw.lease s) (expire_operation c o.spec c.database s).1 _ _
            (λ _. expire_operation-Moves c o.spec c.database s)
            λ _.
              OnOk-if (Turned c draw.lease s)
                (not (matches o.spec.capacity_profile_id pool.spec.profile_id)
                  || not (subset o.spec.required_capabilities pool.spec.capabilities)
                  || ltb (request_limit pool.spec.resource) (budget_bound o.spec))
                _ _ (λ _. Moves-refl s)
                (λ _.
                  within_budget-Turned
                    (and-left (is_waiting o.state) (due o.retry_at c.process) ready) open_root
                    (budget_of s o.root_id (budget_unit o.spec)) refl)

module _ (c : Clock) (pool : Pool) (draw : Draw) where
  consider_root-Turned :
      (o : Operation) (s : Ledger) (r : Option Root)
      → find operation_key o.operation_id s.operations ≡ some o
      → find root_key o.root_id s.roots ≡ r
      → OnOk (Turned c draw.lease s) (consider_root c pool draw o s r)
  unfolding consider_root
  consider_root-Turned o s none found e = Moves-refl s
  consider_root-Turned o s (some r) found e = consider_rows-Turned c pool draw o r s found e

  consider_row-Turned :
      (id : ℕ) (s : Ledger) (o : Option Operation)
      → find operation_key id s.operations ≡ o
      → OnOk (Turned c draw.lease s) (consider_row c pool draw s o)
  unfolding consider_row
  consider_row-Turned id s none found = Moves-refl s
  consider_row-Turned id s (some o) found =
      consider_root-Turned o s (find root_key o.root_id s.roots)
        (subst (λ k. find operation_key k s.operations ≡ some o)
          (sym (find-key operation_key id s.operations o found)) found)
        refl

  later-Reserved :
      {s t : Ledger} (x : Ledger × Option Reservation)
      → Moves s t
      → Reserved c draw.lease t x
      → Reserved c draw.lease s x
  later-Reserved (u, none) m h = Moves-trans m h
  later-Reserved (u, some res) m h = (Moves-trans m h.0, h.1)

  consider_each-Reserved :
      (xs : List Candidate) (s : Ledger)
      → OnOk (Reserved c draw.lease s) (consider_each c pool draw xs s)
  unfolding consider_each consider
  consider_each-Reserved [] s = Moves-refl s
  consider_each-Reserved (x ∷ xs) s =
      choose (consider_row c pool draw s (find operation_key x.operation_id s.operations))
        (consider_row-Turned x.operation_id s (find operation_key x.operation_id s.operations) refl)
        (consider_each-Reserved xs)
    where
      later :
          (t : Ledger) (m : Result (Ledger × Option Reservation))
          → Moves s t
          → OnOk (Reserved c draw.lease t) m
          → OnOk (Reserved c draw.lease s) m
      later t (ok x) m h = later-Reserved x m h
      later t (err e) m h = tt

      choose :
          (turn : Result Turn)
          → OnOk (Turned c draw.lease s) turn
          → ((t : Ledger) → OnOk (Reserved c draw.lease t) (consider_each c pool draw xs t))
          → OnOk
              (Reserved c draw.lease s)
              (elim turn as (λ t. Result (Ledger × Option Reservation)) [
                | err e ↦ err e
                | ok (granted s' res) ↦ ok (s', some res)
                | ok (pass s') ↦ consider_each c pool draw xs s'
              ])
      choose (err e) h rest = tt
      choose (ok (granted t res)) h rest = h
      choose (ok (pass t)) h rest = later t _ h (rest t)

reserve_from-Reserved :
    (c : Clock) (draw : Draw) (s : Ledger) (pool : Option Pool)
    → OnOk (Reserved c draw.lease s) (reserve_from c draw s pool)
unfolding reserve_from
reserve_from-Reserved c draw s none = Moves-refl s
reserve_from-Reserved c draw s (some pool) =
    OnOk-if (Reserved c draw.lease s) (can_reserve pool s) _ _
      (λ _. consider_each-Reserved c pool draw (candidates c pool s) s) (λ _. Moves-refl s)

-- Where `reserve_next` answers with a reservation, it passes the fence and tells the deadline of its
-- attempt, which is leased from the grant on, unsent and holds nothing; its root is running, wanted
-- and before its deadline, the operation and the root have sends left and the budget has room for
-- one more. In every case the rows have only moved on.
pub reserve_next-Reserved :
    (c : Clock) (pool_id : ℕ) (draw : Draw) (s : Ledger)
    → OnOk (Reserved c draw.lease s) (reserve_next c pool_id draw s)
unfolding reserve_next
reserve_next-Reserved c pool_id draw s =
    reserve_from-Reserved c draw s (find pool_key pool_id s.pools)
