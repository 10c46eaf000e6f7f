-- ===== src/Ledger/Progress/Roots.antt =====
-- `create_root`, `submit_operation`, `bind_completion`, `cancel` and `finish_run` of store.py.
use mta_runtime_intramind.Base.{
  ℕ, ◌≡◌, refl, ap, ◌∙◌, true, false, not, ◌&&◌, ◌||◌, Option, none, some, List, ◌∷◌, arith,
  raise_if, admission_denied, root_backlog_full, root_deadline_expired, root_identity_conflict,
  guard, runtime_conflict, operation_identity_conflict, ◌>>◌, count, decides, ltb, leb, ◌==◌,
  if_intro, Result, ok, OnOk, OnOk-if, OnOk-guard, OnOk-raise_if, OnOk-or_raise,
}
use mta_runtime_intramind.Contracts.Operation.{
  Artifact, RootSpec, OperationSpec, budget_unit, RootSpec-discrete, OperationSpec-discrete,
  speech_characters, embedding_characters,
}
use mta_runtime_intramind.Table.{find, find-key}
use mta_runtime_intramind.Ledger.State.{
  Ledger, Clock, Root, RootState, Operation, Binding, Reason, cancel_workflow, deadline_exceeded,
  is_terminal, is_running, root_key, operation_key, binding_key,
}
use mta_runtime_intramind.Ledger.Events.{expired}
use mta_runtime_intramind.Ledger.Results.{in_tenant}
use mta_runtime_intramind.Ledger.Runs.{
  create_root, new_root, new_resource, submit_new, submit_operation, new_operation, accepts_unit,
  pending_of_root, pending_of_model, count_operation, bind_completion, cancel, cancel_root,
  is_finished, pending_ids, finish_run, finish_open, finish_running, close_root, finish_root,
  same_state, same_result, is_some, is_succeeded, result_in_tenant,
}
use mta_runtime_intramind.Ledger.Progress.Steps.{
  RootStep, Moves, Moves-refl, Moves-trans, Moves-root, Moves-new_root, Moves-new_operation,
}
use mta_runtime_intramind.Ledger.Progress.Parts.{
  Moves-same, expire_operation-Moves, end_each-Moves, completion_events-Moves, event-Moves,
}

same_root : (o : Option Root) (a b : Root) → o ≡ some a → o ≡ some b → b ≡ a
same_root o a b p q = cc

module _ (c : Clock) (s : Ledger) where
  pub create_root-Moves : (spec : RootSpec) → OnOk (Moves s) (create_root c spec s)
  unfolding create_root
  create_root-Moves spec = go (find root_key spec.root_id s.roots) refl
    where
      go :
          (o : Option Root)
          → find root_key spec.root_id s.roots ≡ o
          → OnOk (Moves s) (elim o as (λ x. Result Ledger) [
            | some old ↦
                (guard
                    (decides (RootSpec-discrete old.spec spec))
                    (runtime_conflict root_identity_conflict)
                  >> ok s)
            | none ↦
                (raise_if
                    (leb s.max_roots (count (λ r. is_running r.state) s.roots))
                    (admission_denied root_backlog_full true)
                  >> (raise_if
                        (leb spec.deadline c.process)
                        (admission_denied root_deadline_expired false)
                      >> ok (record s {
                        roots = new_root spec ∷ s.roots;
                        budgets =
                            new_resource spec.root_id embedding_characters spec.embedding_budget (
                              new_resource spec.root_id speech_characters spec.speech_budget
                                s.budgets);
                      })))
          ])
      go none e =
          OnOk-raise_if (Moves s) (leb s.max_roots (count (λ r. is_running r.state) s.roots)) _ _
            λ _.
              OnOk-raise_if (Moves s) (leb spec.deadline c.process) _ _ λ _.
                Moves-trans (Moves-new_root s (new_root spec) e) (Moves-same _ _ refl refl refl)
      go (some old) e =
          OnOk-guard (Moves s) (decides (RootSpec-discrete old.spec spec)) _ _ λ _. Moves-refl s

  submit_new-Moves :
      (at : ℕ) (spec : OperationSpec)
      → find operation_key spec.operation_id s.operations ≡ none
      → OnOk (Moves s) (submit_new c at spec s)
  unfolding submit_new
  submit_new-Moves at spec fresh =
      let P = Moves s in
      OnOk-or_raise P (find root_key spec.root_id s.roots) _ _ λ root _.
        OnOk-guard P (root.tenant_id == spec.tenant_id) _ _ λ _.
          OnOk-raise_if P
            (root.cancel_requested || not (is_running root.state) || leb root.deadline c.process) _
            _
            λ _. OnOk-guard P (accepts_unit root.spec (budget_unit spec)) _ _ λ _.
              OnOk-raise_if P (leb root.spec.max_operations root.operation_count) _ _ λ _.
                OnOk-raise_if P
                  (not (expired spec.deadline c.database)
                    && (leb root.spec.max_pending (pending_of_root spec.root_id s.operations)
                        || leb s.max_pending (pending_of_model spec.model_profile s.operations)))
                  _ _
                  λ _.
                    Moves-trans
                      (Moves-trans (Moves-new_operation s (new_operation c spec) fresh) (
                        Moves-root _ spec.root_id count_operation (λ x. refl)
                          (λ x _. record {
                            spec = refl;
                            tenant = refl;
                            attempts = omega arith;
                            final = λ e. (refl, refl);
                          })))
                      (expire_operation-Moves c spec at _)

  pub submit_operation-Moves :
      (sha256 : ℕ → List ℕ) (at : ℕ) (spec : OperationSpec)
      → OnOk (Moves s) (submit_operation sha256 c at spec s)
  unfolding submit_operation
  submit_operation-Moves sha256 at spec =
      OnOk-guard (Moves s) (in_tenant sha256 spec.tenant_id spec.payload) _ _
        λ _. go (find operation_key spec.operation_id s.operations) refl
    where
      go :
          (o : Option Operation)
          → find operation_key spec.operation_id s.operations ≡ o
          → OnOk (Moves s) (elim o as (λ x. Result Ledger) [
            | some old ↦
                (guard
                    (decides (OperationSpec-discrete old.spec spec))
                    (runtime_conflict operation_identity_conflict)
                  >> ok s)
            | none ↦ submit_new c at spec s
          ])
      go none e = submit_new-Moves at spec e
      go (some old) e =
          OnOk-guard (Moves s) (decides (OperationSpec-discrete old.spec spec)) _ _
            λ _. Moves-refl s

  pub bind_completion-Moves :
      (operation tenant binding token : ℕ)
      → OnOk (Moves s) (bind_completion c operation tenant binding token s)
  unfolding bind_completion
  bind_completion-Moves operation tenant binding token =
      OnOk-or_raise (Moves s) (find operation_key operation s.operations) _ _ λ o _.
        OnOk-guard (Moves s) (o.tenant_id == tenant) _ _ λ _.
          if_intro (Moves s) (is_terminal o.state) _ _
            (λ _.
              Moves-trans (bound (find binding_key binding s.bindings))
                (completion_events-Moves c operation _))
            (λ _. bound (find binding_key binding s.bindings))
    where
      bound :
          (o : Option Binding)
          → Moves s (
              let row : Binding = record {
                binding_id = binding;
                operation_id = operation;
                task_token = token;
              } in
              elim o as (λ x. Ledger) [
                | none ↦ record s { bindings = row ∷ s.bindings }
                | some old ↦ s
              ])
      bound none = Moves-same s _ refl refl refl
      bound (some old) = Moves-refl s

  cancel_root-RootStep : (r : Root) → is_finished r.state ≡ false → RootStep r (cancel_root c r)
  cancel_root-RootStep r e = record {
    spec = refl;
    tenant = refl;
    attempts = omega arith;
    final = λ h. (cancelled r.state h e, refl);
  }
    where
      cancelled :
          (state : RootState)
          → is_running state ≡ false
          → is_finished state ≡ false
          → RootState.cancelled ≡ state
      cancelled state h e = ground arith

  pub cancel-Moves : (root tenant : ℕ) → OnOk (Moves s) (cancel c root tenant s)
  unfolding cancel
  cancel-Moves root tenant = OnOk-or_raise (Moves s) (find root_key root s.roots) _ _ λ r found.
      OnOk-guard (Moves s) (r.tenant_id == tenant) _ _ λ _.
        if_intro (Moves s) (is_finished r.state) _ _ (λ _. Moves-refl s)
          λ e.
            Moves-trans
              (Moves-root s root (cancel_root c) (λ x. refl)
                λ x h.
                  cancel_root-RootStep x
                    (ap (λ (q : Root). is_finished q.state) (same_root _ r x found h) ∙ e))
              (Moves-trans (end_each-Moves c (pending_ids root s.operations) _ _ _)
                (event-Moves c (cancel_workflow root) root _))

  close_root-Moves :
      (at root : ℕ) (state : RootState) (result : Option Artifact) (reason : Option Reason)
      (r : Root)
      → find root_key root s.roots ≡ some r
      → is_running r.state ≡ true
      → Moves s (close_root c at root state result reason s)
  unfolding close_root
  close_root-Moves at root state result reason r found running =
      let closed =
        Moves-root s root (finish_root at state result reason) (λ x. refl)
          λ x h.
            (let open_x =
                ap (λ (q : Root). is_running q.state) (same_root _ r x found h) ∙ running in
              record {
                spec = refl;
                tenant = refl;
                attempts = omega arith;
                final = λ e. absurd (cc);
              }) in
      if_intro (Moves s) (is_succeeded state) _ _ (λ _. closed)
        λ _. Moves-trans closed (end_each-Moves c (pending_ids root s.operations) _ _ _)

  finish_running-Moves :
      (at : ℕ) (r : Root) (state : RootState) (result : Option Artifact) (reason : Option Reason)
      → find root_key r.root_id s.roots ≡ some r
      → is_running r.state ≡ true
      → OnOk (Moves s) (finish_running c at r state result reason s)
  unfolding finish_running
  finish_running-Moves at r state result reason found running =
      let late =
        close_root-Moves at r.root_id RootState.failed none (some deadline_exceeded) r found
          running in
      OnOk-if (Moves s) (leb r.deadline c.database) _ _ (λ _. late)
        λ _.
          OnOk-raise_if (Moves s)
            (is_succeeded state && ltb 0 (pending_of_root r.root_id s.operations)) _ _
            λ _.
              if_intro (Moves s) (leb r.deadline at) _ _ (λ _. late)
                (λ _. close_root-Moves at r.root_id state result reason r found running)

  finish_open-Moves :
      (sha256 : ℕ → List ℕ) (at root tenant : ℕ) (state : RootState) (result : Option Artifact)
      (reason : Option Reason)
      → OnOk (Moves s) (finish_open sha256 c at root tenant state result reason s)
  unfolding finish_open
  finish_open-Moves sha256 at root tenant state result reason =
      OnOk-guard (Moves s) (result_in_tenant sha256 tenant result) _ _ λ _.
        OnOk-raise_if (Moves s)
          (same_state state RootState.partial && not (is_some result && is_some reason)) _ _
          λ _. OnOk-or_raise (Moves s) (find root_key root s.roots) _ _ λ r e.
            OnOk-guard (Moves s) (r.tenant_id == tenant) _ _ λ _.
              OnOk-if (Moves s) (is_running r.state) _ _
                (λ running.
                  finish_running-Moves at r state result reason
                    (ap (λ k. find root_key k s.roots) (find-key root_key root s.roots r e) ∙ e)
                    running)
                (λ _.
                  OnOk-raise_if (Moves s)
                    (same_state r.state state && not (same_result r.result result)) _ _
                    λ _. Moves-refl s)

  pub finish_run-Moves :
      (sha256 : ℕ → List ℕ) (at root tenant : ℕ) (state : RootState) (result : Option Artifact)
      (reason : Option Reason)
      → OnOk (Moves s) (finish_run sha256 c at root tenant state result reason s)
  unfolding finish_run
  finish_run-Moves sha256 at root tenant RootState.cancelled result reason =
      OnOk-raise_if (Moves s) (is_some result) _ _ λ _. cancel-Moves root tenant
  finish_run-Moves sha256 at root tenant RootState.running result reason = tt
  finish_run-Moves sha256 at root tenant RootState.succeeded result reason =
      finish_open-Moves sha256 at root tenant RootState.succeeded result reason
  finish_run-Moves sha256 at root tenant RootState.partial result reason =
      finish_open-Moves sha256 at root tenant RootState.partial result reason
  finish_run-Moves sha256 at root tenant RootState.failed result reason =
      finish_open-Moves sha256 at root tenant RootState.failed result reason
