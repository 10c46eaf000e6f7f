-- ===== src/Ledger/Reconciled.antt =====
-- store.py: what `reconcile_expired` leaves behind.
use mta_runtime_intramind.Base.{
  ℕ, ◌≡◌, ◌⊎◌, refl, sym, ap, ◌∙◌, subst, Bool, true, false, not, ◌&&◌, Option, none, some, List,
  [], ◌∷◌, arith, ltb, leb, ◌==◌, if◌then◌else◌, if_intro, select, map, contains, Bool-cases, inl,
  inr, OnOk, OnOk-any, OnOk-bind,
}
use mta_runtime_intramind.Table.{find, rows, find-update, find-update_where, find-key}
use mta_runtime_intramind.Table.Members.{In, In-select, In-rows}
use mta_runtime_intramind.Ledger.State.{
  Ledger, Clock, Root, Operation, OperationState, Reason, root_terminal,
  operation_deadline_exceeded, is_terminal, is_running, root_key, operation_key,
}
use mta_runtime_intramind.Ledger.Events.{terminal, completion_events, end_operation}
use mta_runtime_intramind.Ledger.Runs.{end_each}
use mta_runtime_intramind.Ledger.Stopping.{each_row, joined_rows}
use mta_runtime_intramind.Ledger.Reconcile.{
  operation_ids, is_orphan, end_orphans, root_expired, expire_root, expire_roots, end_overdue,
  end_unservable, close_expired, expire_directs, is_late, is_expired, expire_attempt,
  reconcile_rows,
}
use mathlib.Core.Option

ahead :
    (running : Bool) (deadline now : ℕ)
    → (running && leb deadline now) ≡ false
    → running ≡ true
    → ltb now deadline ≡ true
ahead running deadline now h e = ground arith

running_by_refusal :
    (ended running : Bool) → ended ≡ false → (not ended && not running) ≡ false → running ≡ true
running_by_refusal ended running live h = ground arith

end_operation-terminal :
    (state : OperationState) (reason : Reason) (x : Operation)
    → is_terminal state ≡ true
    → is_terminal (end_operation state reason x).state ≡ true
end_operation-terminal state reason x ends =
    if_intro (λ (y : Operation). is_terminal y.state ≡ true) (is_terminal x.state) _ _ (λ h. h)
      (λ _. ends)

-- An operation that is live after `_terminal` was live before, and is another one.
terminal-live :
    (c : Clock) (id : ℕ) (state : OperationState) (reason : Reason) (s : Ledger) (k : ℕ)
    (o : Operation)
    → is_terminal state ≡ true
    → find operation_key k (terminal c id state reason s).operations ≡ some o
    → is_terminal o.state ≡ false
    → (find operation_key k s.operations ≡ some o) × ((k == id) ≡ false)
unfolding terminal completion_events
terminal-live c id state reason s k o ends e live =
    by_row (find operation_key k s.operations) (Bool-cases (id == k)) (
      sym (
        find-update operation_key k id (end_operation state reason) s.operations
          (λ x. ground arith))
      ∙ e)
  where
    by_row :
        (row : Option Operation)
        → ((id == k) ≡ true) ⊎ ((id == k) ≡ false)
        → (if id == k then Option.map (end_operation state reason) row else row) ≡ some o
        → (row ≡ some o) × ((k == id) ≡ false)
    by_row row (inr other) e = (rw other at e, ground (arith, other))
    by_row none (inl same) e = absurd (no_row same e)
      where
        no_row : (id == k) ≡ true → (if id == k then none else none) ≡ some o → ⊥
        no_row same e = cc (rw same at e)
    by_row (some x) (inl same) e =
        let row : some (end_operation state reason x) ≡ some o = rw same at e in
        absurd (cc (end_operation-terminal state reason x ends))

end_each-live :
    (c : Clock) (ids : List ℕ) (state : OperationState) (reason : Reason) (s : Ledger) (k : ℕ)
    (o : Operation)
    → is_terminal state ≡ true
    → find operation_key k (end_each c ids state reason s).operations ≡ some o
    → is_terminal o.state ≡ false
    → (find operation_key k s.operations ≡ some o) × (contains k ids ≡ false)
unfolding end_each
end_each-live c [] state reason s k o ends e live = (e, refl)
end_each-live c (id ∷ ids) state reason s k o ends e live =
    let (before, apart) =
      end_each-live c ids state reason (terminal c id state reason s) k o ends e live in
    let (first, other) = terminal-live c id state reason s k o ends before live in
    (first, ground (arith, other, apart))

end_each-roots :
    (c : Clock) (ids : List ℕ) (state : OperationState) (reason : Reason) (s : Ledger)
    → (end_each c ids state reason s).roots ≡ s.roots
unfolding end_each terminal completion_events
end_each-roots c [] state reason s = refl
end_each-roots c (id ∷ ids) state reason s = end_each-roots c ids state reason _

In-keys :
    (o : Operation) (os : List Operation)
    → In o os
    → contains o.operation_id (map operation_key os) ≡ true
In-keys o [] mem = absurd mem
In-keys o (x ∷ os) (inl same) = ground (arith, ap operation_key same)
In-keys o (x ∷ os) (inr mem) = ground (arith, In-keys o os mem)

-- An operation that is not among those that a query selects does not fulfil its condition.
not_selected :
    (p : Operation → Bool) (s : Ledger) (k : ℕ) (o : Operation)
    → find operation_key k s.operations ≡ some o
    → contains k (operation_ids p s) ≡ false
    → p o ≡ false
unfolding operation_ids
not_selected p s k o e absent = elim (Bool-cases (p o)) [
  | inr refused ↦ refused
  | inl chosen ↦
      let mem =
        In-select p o (rows operation_key s.operations) chosen
          (In-rows operation_key k o s.operations e) in
      let listed =
        ap (λ i. contains i (map operation_key (select p (rows operation_key s.operations))))
          (sym (find-key operation_key k s.operations o e))
        ∙ In-keys o (select p (rows operation_key s.operations)) mem in
      absurd (cc)
]

-- A root that is running after the roots have expired has its deadline ahead.
running-ahead :
    (c : Clock) (s : Ledger) (id : ℕ) (r : Root)
    → find root_key id (expire_roots c s).roots ≡ some r
    → is_running r.state ≡ true
    → ltb c.transaction r.deadline ≡ true
running-ahead c s id r e running =
    by_row (find root_key id s.roots)
      (sym (find-update_where root_key id (root_expired c) (expire_root c) s.roots (λ x. refl)) ∙ e)
  where
    by_row :
        (row : Option Root)
        → Option.map (λ x. if root_expired c x then expire_root c x else x) row ≡ some r
        → ltb c.transaction r.deadline ≡ true
    by_row none e = absurd (cc)
    by_row (some x) e =
        let same : (if root_expired c x then expire_root c x else x) ≡ r = cc in
        by_test (root_expired c x) refl same
      where
        by_test :
            (test : Bool)
            → root_expired c x ≡ test
            → (if test then expire_root c x else x) ≡ r
            → ltb c.transaction r.deadline ≡ true
        by_test true h same = absurd (cc (ap (λ y. is_running y.state) same))
        by_test false h same =
            subst (λ y. is_running y.state ≡ true → ltb c.transaction y.deadline ≡ true) same
              (ahead (is_running x.state) x.deadline c.transaction h) running

-- Every operation that has not ended belongs to a running root whose deadline is ahead.
abbrev pub IsReconciled : Clock → Ledger → Type 0
IsReconciled c s =
    (id : ℕ) (o : Operation) (r : Root)
    → find operation_key id s.operations ≡ some o
    → is_terminal o.state ≡ false
    → find root_key o.root_id s.roots ≡ some r
    → (is_running r.state ≡ true) × (ltb c.transaction r.deadline ≡ true)

orphans-IsReconciled : (c : Clock) (s : Ledger) → IsReconciled c (end_orphans c (expire_roots c s))
unfolding end_orphans
orphans-IsReconciled c s id o r found live root =
    let t = expire_roots c s in
    let orphans = operation_ids (is_orphan t) t in
    let (before, absent) =
      end_each-live c orphans OperationState.cancelled root_terminal t id o refl found live in
    let kept =
      sym (
        ap (find root_key o.root_id)
          (end_each-roots c orphans OperationState.cancelled root_terminal t))
      ∙ root in
    let owned = not_selected (is_orphan t) t id o before absent in
    let running = still_running (find root_key o.root_id t.roots) kept owned in
    (running, running-ahead c s o.root_id r kept running)
  where
    still_running :
        (row : Option Root)
        → row ≡ some r
        → (not (is_terminal o.state)
            && elim row as (λ x. Bool) [ none ↦ false | some x ↦ not (is_running x.state) ])
          ≡ false
        → is_running r.state ≡ true
    still_running none same owned = absurd (cc)
    still_running (some x) same owned =
        let row : x ≡ r = cc in
        ap (λ y. is_running y.state) (sym row)
        ∙ running_by_refusal (is_terminal o.state) (is_running x.state) live owned

-- Where the transaction of `reconcile_expired` commits, every operation that has not ended belongs to
-- a running root whose deadline is ahead of the transaction.
pub reconcile_rows-IsReconciled :
    (c : Clock) (s : Ledger) → OnOk (λ x. IsReconciled c x.0) (reconcile_rows c s)
unfolding reconcile_rows close_expired
reconcile_rows-IsReconciled c s =
    let s₁ = (expire_directs c s).0 in
    let s₂ =
      end_each c (operation_ids (is_late c) s₁) OperationState.failed operation_deadline_exceeded
        s₁ in
    let expired = each_row (expire_attempt c) (select (is_expired c s₂) (joined_rows s₂)) s₂ in
    OnOk-bind {B = Ledger × ℕ} (λ t. Unit {0}) (λ x. IsReconciled c x.0) expired _
      (OnOk-any expired) λ t _. orphans-IsReconciled c (end_unservable c (end_overdue c t))
