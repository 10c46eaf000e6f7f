-- ===== src/Ledger/Balance/Closing.antt =====
-- `cancel`, `finish_run` and `bind_completion` keep the books: compute that is held stays held.
use mta_runtime_intramind.Base.{
  ℕ, refl, not, ◌&&◌, Option, none, some, List, ◌∷◌, ltb, leb, ◌==◌, if_intro, OnOk, OnOk-if,
  OnOk-guard, OnOk-raise_if, OnOk-or_raise,
}
use mta_runtime_intramind.Contracts.Operation.{Artifact}
use mta_runtime_intramind.Table.{find}
use mta_runtime_intramind.Ledger.State.{
  Ledger, Clock, Root, RootState, Binding, Reason, cancel_workflow, deadline_exceeded, is_terminal,
  is_running, root_key, operation_key, binding_key,
}
use mta_runtime_intramind.Ledger.Runs.{
  cancel, cancel_root, is_finished, pending_ids, finish_run, finish_open, finish_running,
  close_root, finish_root, same_state, same_result, is_some, is_succeeded, pending_of_root,
  result_in_tenant, bind_completion,
}
use mta_runtime_intramind.Ledger.Balance.Columns.{budget_of-eq}
use mta_runtime_intramind.Ledger.Balance.Frame.{Frame, Frame-refl, Frame-trans}
use mta_runtime_intramind.Ledger.Balance.Quiet.{
  roots-Frame, event-Frame, end_each-Frame, completion_events-Frame,
}

pub cancel-Frame :
    (c : Clock) (root tenant : ℕ) (s : Ledger) → OnOk (Frame s) (cancel c root tenant s)
unfolding cancel
cancel-Frame c root tenant s = OnOk-or_raise (Frame s) (find root_key root s.roots) _ _ λ r e.
    OnOk-guard (Frame s) (r.tenant_id == tenant) _ _ λ _.
      if_intro (Frame s) (is_finished r.state) _ _ (λ _. Frame-refl s)
        λ _. Frame-trans (roots-Frame s root (cancel_root c) (λ x. refl) (λ x. refl)) (
          Frame-trans (end_each-Frame c (pending_ids root s.operations) _ _ _)
            (event-Frame c (cancel_workflow root) root _))

close_root-Frame :
    (c : Clock) (at root : ℕ) (state : RootState) (result : Option Artifact)
    (reason : Option Reason) (s : Ledger)
    → Frame s (close_root c at root state result reason s)
unfolding close_root
close_root-Frame c at root state result reason s =
    let closed = roots-Frame s root (finish_root at state result reason) (λ x. refl) (λ x. refl) in
    if_intro (Frame s) (is_succeeded state) _ _ (λ _. closed)
      λ _. Frame-trans closed (end_each-Frame c (pending_ids root s.operations) _ _ _)

finish_running-Frame :
    (c : Clock) (at : ℕ) (r : Root) (state : RootState) (result : Option Artifact)
    (reason : Option Reason) (s : Ledger)
    → OnOk (Frame s) (finish_running c at r state result reason s)
unfolding finish_running
finish_running-Frame c at r state result reason s =
    let late = close_root-Frame c at r.root_id RootState.failed none (some deadline_exceeded) s in
    OnOk-if (Frame s) (leb r.deadline c.database) _ _ (λ _. late)
      λ _.
        OnOk-raise_if (Frame s)
          (is_succeeded state && ltb 0 (pending_of_root r.root_id s.operations)) _ _
          λ _.
            if_intro (Frame s) (leb r.deadline at) _ _ (λ _. late)
              (λ _. close_root-Frame c at r.root_id state result reason s)

finish_open-Frame :
    (sha256 : ℕ → List ℕ) (c : Clock) (at root tenant : ℕ) (state : RootState)
    (result : Option Artifact) (reason : Option Reason) (s : Ledger)
    → OnOk (Frame s) (finish_open sha256 c at root tenant state result reason s)
unfolding finish_open
finish_open-Frame sha256 c at root tenant state result reason s =
    OnOk-guard (Frame s) (result_in_tenant sha256 tenant result) _ _ λ _.
      OnOk-raise_if (Frame s)
        (same_state state RootState.partial && not (is_some result && is_some reason)) _ _
        λ _. OnOk-or_raise (Frame s) (find root_key root s.roots) _ _ λ r e.
          OnOk-guard (Frame s) (r.tenant_id == tenant) _ _ λ _.
            OnOk-if (Frame s) (is_running r.state) _ _
              (λ _. finish_running-Frame c at r state result reason s)
              (λ _.
                OnOk-raise_if (Frame s)
                  (same_state r.state state && not (same_result r.result result)) _ _
                  λ _. Frame-refl s)

pub finish_run-Frame :
    (sha256 : ℕ → List ℕ) (c : Clock) (at root tenant : ℕ) (state : RootState)
    (result : Option Artifact) (reason : Option Reason) (s : Ledger)
    → OnOk (Frame s) (finish_run sha256 c at root tenant state result reason s)
unfolding finish_run
finish_run-Frame sha256 c at root tenant RootState.cancelled result reason s =
    OnOk-raise_if (Frame s) (is_some result) _ _ λ _. cancel-Frame c root tenant s
finish_run-Frame sha256 c at root tenant RootState.running result reason s = tt
finish_run-Frame sha256 c at root tenant RootState.succeeded result reason s =
    finish_open-Frame sha256 c at root tenant RootState.succeeded result reason s
finish_run-Frame sha256 c at root tenant RootState.partial result reason s =
    finish_open-Frame sha256 c at root tenant RootState.partial result reason s
finish_run-Frame sha256 c at root tenant RootState.failed result reason s =
    finish_open-Frame sha256 c at root tenant RootState.failed result reason s

bindings-Frame : (s : Ledger) (bs : List Binding) → Frame s (record s { bindings = bs })
bindings-Frame s bs = record {
  budgets = λ root unit. budget_of-eq s (record s { bindings = bs }) root unit refl refl;
  attempts = refl;
  roots = λ id. refl;
  specs = λ id. refl;
  kept = λ root e. e;
}

pub bind_completion-Frame :
    (c : Clock) (operation tenant binding token : ℕ) (s : Ledger)
    → OnOk (Frame s) (bind_completion c operation tenant binding token s)
unfolding bind_completion
bind_completion-Frame c operation tenant binding token s =
    OnOk-or_raise (Frame s) (find operation_key operation s.operations) _ _ λ o _.
      OnOk-guard (Frame s) (o.tenant_id == tenant) _ _ λ _.
        if_intro (Frame s) (is_terminal o.state) _ _
          (λ _.
            Frame-trans (bound-Frame (find binding_key binding s.bindings))
              (completion_events-Frame c operation _))
          (λ _. bound-Frame (find binding_key binding s.bindings))
  where
    bound-Frame :
        (o : Option Binding)
        → Frame s (
            let row : Binding = record {
              binding_id = binding;
              operation_id = operation;
              task_token = token;
            } in
            elim o as (λ x. Ledger) [
              | none ↦ record s { bindings = row ∷ s.bindings }
              | some old ↦ s
            ])
    bound-Frame none = bindings-Frame s _
    bound-Frame (some old) = Frame-refl s
