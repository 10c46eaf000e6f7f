-- ===== src/Ledger/Balance/Submitting.antt =====
-- `submit_operation` keeps the books: no attempt refers to the new operation yet.
use mta_runtime_intramind.Base.{
  ℕ, ◌≡◌, ◌≢◌, ◌⊎◌, refl, sym, ap, ◌∙◌, Bool, true, false, not, ◌&&◌, ◌||◌, Option, none, some,
  List, [], ◌∷◌, arith, ◌==◌, ==→eq, leb, sum, decides, if◌then◌else◌, Bool-cases, inl, inr, ok,
  guard, ◌>>◌, runtime_conflict, operation_identity_conflict, OnOk, OnOk-guard, OnOk-raise_if,
  OnOk-or_raise,
}
use mta_runtime_intramind.Contracts.Operation.{OperationSpec, budget_unit, OperationSpec-discrete}
use mta_runtime_intramind.Table.{find}
use mta_runtime_intramind.Ledger.State.{
  Ledger, Clock, Operation, Attempt, attempt_key, operation_key, root_key, is_running,
}
use mta_runtime_intramind.Ledger.Events.{expired}
use mta_runtime_intramind.Ledger.Results.{in_tenant}
use mta_runtime_intramind.Ledger.Runs.{
  submit_new, submit_operation, new_operation, count_operation, accepts_unit, pending_of_root,
  pending_of_model,
}
use mta_runtime_intramind.Ledger.Balance.Invariant.{
  root_of, spec_of, held_in, used_in, AllLinked, IsConsistent,
}
use mta_runtime_intramind.Ledger.Balance.Columns.{budget_of-eq}
use mta_runtime_intramind.Ledger.Balance.Frame.{
  Frame-trans, Frame-IsConsistent, held_in-roots, used_in-roots,
}
use mta_runtime_intramind.Ledger.Balance.Quiet.{roots-Frame, expire_operation-Frame}
use mathlib.Core.Option
use mathlib.Core.Path.{subst}

-- Two aggregates agree if they agree on the rows whose operation exists.
sum-linked :
    (operations : List Operation) (f g : Attempt → ℕ) (rows : List Attempt)
    → AllLinked operations rows
    → ((a : Attempt) → root_of operations a.operation_id ≢ none → f a ≡ g a)
    → sum f rows ≡ sum g rows
sum-linked operations f g [] l same = refl
sum-linked operations f g (a ∷ rows) l same =
    ground (arith, same a l.0, sum-linked operations f g rows l.1 same)

AllLinked-mono :
    (xs ys : List Operation) (rows : List Attempt)
    → ((id : ℕ) → root_of xs id ≢ none → root_of ys id ≡ root_of xs id)
    → AllLinked xs rows
    → AllLinked ys rows
AllLinked-mono xs ys [] same l = tt
AllLinked-mono xs ys (a ∷ rows) same l =
    (λ e. l.0 (sym (same a.operation_id l.0) ∙ e), AllLinked-mono xs ys rows same l.1)

pub AllLinked-find :
    (operations : List Operation) (id : ℕ) (rows : List Attempt) (a : Attempt)
    → find attempt_key id rows ≡ some a
    → AllLinked operations rows
    → root_of operations a.operation_id ≢ none
unfolding find
AllLinked-find operations id [] a e l = absurd (cc)
AllLinked-find operations id (x ∷ rows) a e l =
    choose (AllLinked-find operations id rows a) (x.attempt_id == id) e
  where
    choose :
        (find attempt_key id rows ≡ some a
          → AllLinked operations rows
          → root_of operations a.operation_id ≢ none)
        → (test : Bool) → (if test then some x else find attempt_key id rows) ≡ some a
        → root_of operations a.operation_id ≢ none
    choose ih true e =
        let same : x ≡ a = cc in subst (λ r. root_of operations r.operation_id ≢ none) same l.0
    choose ih false e = ih e l.1

module _ (c : Clock) (spec : OperationSpec) (s : Ledger)
    (new : find operation_key spec.operation_id s.operations ≡ none) where
  abbrev listed : List Operation
  listed = new_operation c spec ∷ s.operations

  abbrev submitted : Ledger
  submitted = record s { operations = listed }

  -- An operation that exists is not the new one.
  find_old :
      (id : ℕ)
      → root_of s.operations id ≢ none
      → find operation_key id listed ≡ find operation_key id s.operations
  unfolding find
  find_old id h = elim (Bool-cases (spec.operation_id == id)) [
    | inl e ↦ absurd (
        h (
          ap (Option.map (λ (o : Operation). o.root_id)) (
            subst (λ k. find operation_key k s.operations ≡ none) (==→eq spec.operation_id id e)
              new)))
    | inr e ↦ rw e
  ]

  old_root : (id : ℕ) → root_of s.operations id ≢ none → root_of listed id ≡ root_of s.operations id
  old_root id h = ap (Option.map (λ (o : Operation). o.root_id)) (find_old id h)

  old_spec : (id : ℕ) → root_of s.operations id ≢ none → spec_of listed id ≡ spec_of s.operations id
  old_spec id h = ap (Option.map (λ (o : Operation). o.spec)) (find_old id h)

  submitted_root :
      (id root : ℕ)
      → root_of listed id ≡ some root
      → (spec.root_id ≡ root) ⊎ (root_of s.operations id ≡ some root)
  unfolding find
  submitted_root id root e = ground arith

  pub submitted-IsConsistent :
      find root_key spec.root_id s.roots ≢ none → IsConsistent s → IsConsistent submitted
  submitted-IsConsistent exists v = record {
    balanced = record {
      held = λ root unit b e.
          v.balanced.held root unit b (sym (budget_of-eq s submitted root unit refl refl) ∙ e)
          ∙ sym (
              sum-linked s.operations (held_in listed root unit) (held_in s.operations root unit)
                s.attempts v.linked
                (λ a h. held_in-roots s.operations listed root unit a (old_root a.operation_id h)));
      used = λ root unit b e.
          v.balanced.used root unit b (sym (budget_of-eq s submitted root unit refl refl) ∙ e)
          ∙ sym (
              sum-linked s.operations (used_in listed root unit) (used_in s.operations root unit)
                s.attempts v.linked
                (λ a h. used_in-roots s.operations listed root unit a (old_root a.operation_id h)));
    };
    rows = v.rows;
    priced = λ id a e spec' h. v.priced id a e spec' (
        sym (old_spec a.operation_id (AllLinked-find s.operations id s.attempts a e v.linked)) ∙ h);
    linked = AllLinked-mono s.operations listed s.attempts old_root v.linked;
    rooted = λ id root e. elim (submitted_root id root e) [
      | inl same ↦ subst (λ r. find root_key r s.roots ≢ none) same exists
      | inr old ↦ v.rooted id root old
    ];
  }

  submit_new-IsConsistent : (at : ℕ) → IsConsistent s → OnOk IsConsistent (submit_new c at spec s)
  unfolding submit_new
  submit_new-IsConsistent at v =
      OnOk-or_raise IsConsistent (find root_key spec.root_id s.roots) _ _ λ root e.
        OnOk-guard IsConsistent (root.tenant_id == spec.tenant_id) _ _ λ _.
          OnOk-raise_if IsConsistent
            (root.cancel_requested || not (is_running root.state) || leb root.deadline c.process) _
            _
            λ _. OnOk-guard IsConsistent (accepts_unit root.spec (budget_unit spec)) _ _ λ _.
              OnOk-raise_if IsConsistent (leb root.spec.max_operations root.operation_count) _ _
                λ _.
                  OnOk-raise_if IsConsistent
                    (not (expired spec.deadline c.database)
                      && (leb root.spec.max_pending (pending_of_root spec.root_id s.operations)
                          || leb s.max_pending (pending_of_model spec.model_profile s.operations)))
                    _ _
                    λ _.
                      Frame-IsConsistent
                        (Frame-trans
                          (roots-Frame submitted spec.root_id count_operation (λ x. refl)
                            (λ x. refl))
                          (expire_operation-Frame c spec at _))
                        (submitted-IsConsistent (λ h. absurd (cc)) v)

pub submit_operation-IsConsistent :
    (sha256 : ℕ → List ℕ) (c : Clock) (at : ℕ) (spec : OperationSpec) (s : Ledger)
    → IsConsistent s
    → OnOk IsConsistent (submit_operation sha256 c at spec s)
unfolding submit_operation
submit_operation-IsConsistent sha256 c at spec s v =
    OnOk-guard IsConsistent (in_tenant sha256 spec.tenant_id spec.payload) _ _
      λ _. choose (find operation_key spec.operation_id s.operations) refl
  where
    choose :
        (o : Option Operation)
        → find operation_key spec.operation_id s.operations ≡ o
        → OnOk IsConsistent (elim (find operation_key spec.operation_id s.operations) [
          | some old ↦
              guard
                (decides (OperationSpec-discrete old.spec spec))
                (runtime_conflict operation_identity_conflict)
              >> ok s
          | none ↦ submit_new c at spec s
        ])
    choose (some old) e =
        rw e (OnOk-guard IsConsistent (decides (OperationSpec-discrete old.spec spec)) _ _ λ _. v)
    choose none e = rw e (submit_new-IsConsistent c spec s e at v)
