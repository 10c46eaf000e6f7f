-- ===== src/Ledger/Progress/Owners.antt =====
-- The calls that the owner of an attempt makes of store.py.
use mta_runtime_intramind.Base.{
  ℕ, ◌+◌, ◌≡◌, refl, sym, ap, ◌∙◌, subst, Bool, true, false, not, ◌&&◌, ◌||◌, Option, some, List,
  ◌∷◌, arith, ltb, if◌then◌else◌, if_intro, Result, ok, err, OnOk, OnOk-bind, OnOk-if, OnOk-guard,
  OnOk-raise_if, OnOk-or_raise,
}
use mta_runtime_intramind.Base.Int.{ℤ}
use mta_runtime_intramind.Contracts.Operation.{Artifact, budget_unit, budget_bound}
use mta_runtime_intramind.Table.{find, update}
use mta_runtime_intramind.Ledger.State.{
  Ledger, Clock, Operation, Attempt, AttemptState, Reason, is_terminal, is_settled, is_running,
  is_reserved, root_key, operation_key, attempt_key,
}
use mta_runtime_intramind.Ledger.Budgets.{budget_of}
use mta_runtime_intramind.Ledger.Events.{expire_operation}
use mta_runtime_intramind.Ledger.Attempts.{
  Reservation, Joined, owned, owner_alive, can_send, charge_send, mark_send, send_intent_row,
  count_operation_attempt, count_root_attempt, heartbeat, is_open, compute_finished, finish_compute,
  unknown, lose, wait_reconciling, affords, still_sendable,
}
use mta_runtime_intramind.Ledger.Results.{
  insert_artifacts, disposition_of, was_cancelled, commit_row, succeed, publish, commit_new,
  commit_result, is_committed, is_backend_finished, differs, failed_row, wait_retry, after_failure,
  fail,
}
use mta_runtime_intramind.Ledger.Owned.{IsOwned, owned-IsOwned, IsJoined-found}
use mta_runtime_intramind.Ledger.Balance.Quiet.{expire_operation-Frame}
use mta_runtime_intramind.Ledger.Progress.Steps.{
  OperationStep, AttemptStep, Moves, Moves-refl, Moves-trans, Moves-root, Moves-operation,
  Moves-attempt,
}
use mta_runtime_intramind.Ledger.Progress.Parts.{
  Moves-same, terminal-Moves, expire_operation-Moves, completion_events-Moves, adjust_budget-Moves,
  KeepsRow, settle-KeepsRow, adjust_budget-attempts, expire_operation-kept,
}

-- An UPDATE that leaves a row that has ended as it is, or that is made of one that has not.
open_AttemptStep :
    (a b : Attempt)
    → b.operation_id ≡ a.operation_id
    → b.owner_id ≡ a.owner_id
    → b.lease_epoch ≡ a.lease_epoch
    → is_settled a.state ≡ false
    → is_reserved b.state ≡ false
    → AttemptStep a b
open_AttemptStep a b operation owner lease open_state sent = record {
  operation = operation;
  owner = owner;
  lease = lease;
  final = λ e. absurd (cc);
  sent = λ e. absurd (cc);
}

open_OperationStep :
    (o p : Operation)
    → p.root_id ≡ o.root_id
    → p.spec ≡ o.spec
    → p.attempts ≡ o.attempts
    → is_terminal o.state ≡ false
    → OperationStep o p
open_OperationStep o p root spec attempts waiting = record {
  root = root;
  spec = spec;
  attempts = omega (arith, attempts);
  final = λ e. absurd (cc);
}

same_row : {A : Type 0} (o : Option A) (a b : A) → o ≡ some a → o ≡ some b → b ≡ a
same_row o a b p q = cc

reserved-open : (state : AttemptState) → is_reserved state ≡ true → is_settled state ≡ false
reserved-open state e = ground arith

module _ (c : Clock) (res : Reservation) (s : Ledger) where
  -- The attempt's row moves, if it has not ended.
  own_row-Moves :
      (j : Joined) (f : Attempt → Attempt)
      → IsOwned res s j
      → ((a : Attempt) → (f a).attempt_id ≡ a.attempt_id)
      → AttemptStep j.attempt (f j.attempt)
      → Moves s (record s { attempts = update attempt_key res.attempt_id f s.attempts })
  own_row-Moves j f w keeps step =
      Moves-attempt s res.attempt_id f keeps λ a e.
        subst (λ x. AttemptStep x (f x)) (sym (same_row _ j.attempt a w.joined.attempt e)) step

  pub compute_finished-Moves : OnOk (Moves s) (compute_finished c res s)
  unfolding compute_finished
  compute_finished-Moves =
      OnOk-bind (IsOwned res s) (Moves s) (owned res s) _ (owned-IsOwned res s) λ j w.
        if_intro (Moves s) (is_settled j.attempt.state) s _ (λ e. Moves-refl s)
          λ e.
            own_row-Moves j (finish_compute c) w (λ x. refl)
              (open_AttemptStep _ _ refl refl refl e refl)

  pub heartbeat-Moves : (lease : ℕ) → OnOk (λ r. Moves s r.0) (heartbeat c lease res s)
  unfolding heartbeat
  heartbeat-Moves lease =
      OnOk-bind (IsOwned res s) (λ r. Moves s r.0) (owned res s) _ (owned-IsOwned res s)
        λ j w.
          if_intro {A = Ledger × Bool} (λ r. Moves s r.0) (is_open j.attempt.state) _ _
            (λ _.
              if_intro (Moves s) (owner_alive c res.owner_id s) s _ (λ _. Moves-refl s)
                λ _.
                  own_row-Moves j _ w (λ x. refl)
                    (record {
                      operation = refl;
                      owner = refl;
                      lease = refl;
                      final = λ e. refl;
                      sent = λ e. e;
                    }))
            (λ _. Moves-refl s)

  charge_send-Moves :
      (j : Joined) → OnOk (λ t. Moves s t × (t.attempts ≡ s.attempts)) (charge_send c res j s)
  unfolding charge_send
  charge_send-Moves j =
      let P = λ (t : Ledger). Moves s t × (t.attempts ≡ s.attempts) in
      OnOk-or_raise P (find root_key j.operation.root_id s.roots) _ _ λ r _.
        OnOk-or_raise P (find operation_key j.attempt.operation_id s.operations) _ _ λ o _.
          OnOk-guard P (still_sendable c res j r o) _ _ λ _.
            OnOk-guard P
              (ltb o.attempts j.operation.spec.max_attempts && ltb r.attempts r.spec.max_attempts) _
              _
              λ _.
                OnOk-guard P
                  (affords (budget_bound j.operation.spec)
                    (budget_of s j.operation.root_id (budget_unit j.operation.spec)))
                  _ _
                  λ _. (
                    Moves-trans counted (
                        adjust_budget-Moves j.operation.root_id (budget_unit j.operation.spec) _ _),
                    adjust_budget-attempts j.operation.root_id (budget_unit j.operation.spec) _ _,
                  )
    where
      counted : Moves s (record s {
        operations =
            update operation_key j.attempt.operation_id count_operation_attempt s.operations;
        roots = update root_key j.operation.root_id count_root_attempt s.roots;
      })
      counted =
          Moves-trans
            (Moves-operation s j.attempt.operation_id count_operation_attempt (λ x. refl)
              (λ x _. record {
                root = refl;
                spec = refl;
                attempts = omega arith;
                final = λ e. (refl, refl);
              }))
            (Moves-root _ j.operation.root_id count_root_attempt (λ x. refl)
              (λ x _. record {
                spec = refl;
                tenant = refl;
                attempts = omega arith;
                final = λ e. (refl, refl);
              }))

-- Where the row has kept its state, an UPDATE of it moves it on.
row_after-Moves :
    (s t : Ledger) (a : Attempt) (f : Attempt → Attempt)
    → KeepsRow a s t
    → is_settled a.state ≡ false
    → ((x : Attempt) → (f x).attempt_id ≡ x.attempt_id)
    → ((x : Attempt) → is_settled x.state ≡ false → AttemptStep x (f x))
    → Moves s (record t { attempts = update attempt_key a.attempt_id f t.attempts })
row_after-Moves s t a f kept open_state keeps step = Moves-trans kept.moves (
    Moves-attempt t a.attempt_id f keeps
      (λ x e. step x (ap is_settled (kept.state x e) ∙ open_state)))

settled_if :
    (not_sent : Bool)
    → is_reserved (if not_sent then AttemptState.failed_not_sent else AttemptState.failed) ≡ false
settled_if true = refl
settled_if false = refl

or_left : (a b : Bool) → (a || b) ≡ false → a ≡ false
or_left a b e = ground arith

or_right : (a b : Bool) → (a || b) ≡ false → b ≡ false
or_right a b e = ground arith

finished-open : (state : AttemptState) → is_backend_finished state ≡ true → is_settled state ≡ false
finished-open state e = ground arith

anything : {A : Type 0} (m : Result A) → OnOk (λ _. Unit {0}) m
anything (ok a) = tt
anything (err e) = tt

module _ (c : Clock) (res : Reservation) (s : Ledger) where
  sendable-reserved : (j : Joined) → can_send c res j s ≡ true → is_reserved j.attempt.state ≡ true
  unfolding can_send
  sendable-reserved j h = ground arith

  after_failure-Moves :
      (j : Joined) (reason : Reason) (retry : Bool) (delay : ℕ) (t : Ledger)
      → t.operations ≡ s.operations
      → IsOwned res s j
      → Moves t (after_failure c j reason retry delay t)
  unfolding after_failure
  after_failure-Moves j reason retry delay t same w =
      let op = j.attempt.operation_id in
      if_intro (Moves t) (is_terminal j.operation.state) _ _ (λ _. Moves-refl t)
        λ waiting.
          if_intro (Moves t) j.root.cancel_requested _ _ (λ _. terminal-Moves c op _ _ t)
            λ _.
              if_intro (Moves t) (not (is_running j.root.state)) _ _
                (λ _. terminal-Moves c op _ _ t)
                λ _.
                  if_intro (Moves t) (expire_operation c j.operation.spec c.database t).1 _ _
                    (λ _. expire_operation-Moves c j.operation.spec c.database t)
                    λ _.
                      if_intro (Moves t) retry _ _
                        (λ _.
                          Moves-operation t op (wait_retry reason (c.process + delay)) (λ x. refl)
                            λ x e. open_OperationStep _ _ refl refl refl (
                              ap (λ (o : Operation). is_terminal o.state)
                                (same_row _ j.operation x w.joined.operation
                                  (ap (find operation_key op) (sym same) ∙ e))
                              ∙ waiting))
                        (λ _. terminal-Moves c op _ _ t)

  pub fail-Moves :
      (reason : Reason) (not_sent retry : Bool) (delay : ℕ)
      → OnOk (Moves s) (fail c res reason not_sent retry delay s)
  unfolding fail
  fail-Moves reason not_sent retry delay =
      OnOk-bind (IsOwned res s) (Moves s) (owned res s) _ (owned-IsOwned res s) λ j w.
        OnOk-if (Moves s) (is_settled j.attempt.state) _ _ (λ _. Moves-refl s)
          λ open_state. OnOk-raise_if (Moves s) (j.attempt.compute_held && not not_sent) _ _ λ _.
            OnOk-bind (KeepsRow j.attempt s) (Moves s) _ _
              (settle-KeepsRow c j.attempt j.operation.root_id _ s (IsJoined-found w.joined))
              λ t kept.
                Moves-trans
                  (row_after-Moves s t j.attempt (failed_row not_sent reason) kept open_state
                    (λ x. refl)
                    (λ x e. open_AttemptStep x _ refl refl refl e (settled_if not_sent)))
                  (after_failure-Moves j reason retry delay _ kept.operations w)

  publish-Moves :
      (j : Joined) (artifact : Artifact) (ended : Bool) (t : Ledger)
      → (ended ≡ false
          → (x : Operation) → find operation_key j.attempt.operation_id t.operations ≡ some x
          → is_terminal x.state ≡ false)
      → Moves t (publish c j artifact ended t)
  unfolding publish
  publish-Moves j artifact ended t waiting =
      if_intro (Moves t) ended _ _ (λ _. Moves-refl t)
        λ e.
          if_intro (Moves t) (was_cancelled j) _ _
            (λ _. terminal-Moves c j.attempt.operation_id _ _ t)
            λ _.
              Moves-operation t j.attempt.operation_id (succeed artifact) (λ x. refl)
                (λ x h. open_OperationStep x _ refl refl refl (waiting e x h))

  commit_new-Moves :
      (sha256 : ℕ → List ℕ) (j : Joined) (artifact : Artifact) (usage : Option ℤ)
      (attachments : List Artifact)
      → IsOwned res s j
      → is_settled j.attempt.state ≡ false
      → OnOk (Moves s) (commit_new sha256 c j artifact usage attachments s)
  unfolding commit_new
  commit_new-Moves sha256 j artifact usage attachments w open_state =
      let a = j.attempt in
      let (s₁, gone) = expire_operation c j.operation.spec c.database s in
      let ended = gone || is_terminal j.operation.state in
      let quiet = expire_operation-Frame c j.operation.spec c.database s in
      let found = ap (find attempt_key a.attempt_id) quiet.attempts ∙ IsJoined-found w.joined in
      OnOk-bind (λ rows. Unit {0}) (Moves s)
        (insert_artifacts sha256 j (disposition_of (was_cancelled j) ended) (artifact ∷ attachments)
          s₁.artifacts)
        _ (anything _)
        λ rows _.
          let s₂ : Ledger = record s₁ { artifacts = rows } in
          OnOk-bind (KeepsRow a s₂) (Moves s) _ _
            (settle-KeepsRow c a j.operation.root_id usage s₂ found)
            λ t kept. Moves-trans (expire_operation-Moves c j.operation.spec c.database s) (
              Moves-trans (Moves-same s₁ s₂ refl refl refl) (
                Moves-trans
                  (row_after-Moves s₂ t a (commit_row c) kept open_state (λ x. refl)
                    (λ x e. open_AttemptStep x _ refl refl refl e refl))
                  (Moves-trans
                    (publish-Moves j artifact ended _ (λ e x h.
                      waiting j w e x
                        (sym (ap (find operation_key a.operation_id) kept.operations) ∙ h)))
                    (completion_events-Moves c a.operation_id _))))
    where
      waiting :
          (j : Joined)
          → IsOwned res s j
          → ((expire_operation c j.operation.spec c.database s).1 || is_terminal j.operation.state)
            ≡ false
          → (x : Operation)
          → find operation_key j.attempt.operation_id
              (expire_operation c j.operation.spec c.database s).0.operations
            ≡ some x
          → is_terminal x.state ≡ false
      waiting j w e x h =
          let gone = (expire_operation c j.operation.spec c.database s).1 in
          let ended = is_terminal j.operation.state in
          let kept = expire_operation-kept c j.operation.spec c.database s (or_left gone ended e) in
          ap (λ (o : Operation). is_terminal o.state)
            (same_row (find operation_key j.attempt.operation_id s.operations) j.operation x
              w.joined.operation (sym (ap (find operation_key j.attempt.operation_id) kept) ∙ h))
          ∙ or_right gone ended e

  pub commit_result-Moves :
      (sha256 : ℕ → List ℕ) (artifact : Artifact) (usage : Option ℤ) (attachments : List Artifact)
      → OnOk (Moves s) (commit_result sha256 c res artifact usage attachments s)
  unfolding commit_result
  commit_result-Moves sha256 artifact usage attachments =
      OnOk-bind (IsOwned res s) (Moves s) (owned res s) _ (owned-IsOwned res s) λ j w.
        OnOk-if (Moves s) (is_committed j.attempt.state) _ _
          (λ _. OnOk-raise_if (Moves s) (differs j.operation.result artifact) _ _ λ _. Moves-refl s)
          λ _.
            OnOk-raise_if (Moves s)
              (j.attempt.compute_held || not (is_backend_finished j.attempt.state)) _ _
              λ h.
                commit_new-Moves sha256 j artifact usage attachments w
                  (finished-open j.attempt.state (ground arith))

  pub unknown-Moves : (reason : Reason) → OnOk (Moves s) (unknown c res reason s)
  unfolding unknown
  unknown-Moves reason =
      OnOk-bind (IsOwned res s) (Moves s) (owned res s) _ (owned-IsOwned res s) λ j w.
        let lost : Ledger = record s {
          attempts = update attempt_key res.attempt_id (lose c reason) s.attempts;
        } in
        let spec = j.operation.spec in
        if_intro (Moves s) (is_settled j.attempt.state) s _ (λ _. Moves-refl s)
          λ open_state.
            let moved =
              Moves-trans
                (own_row-Moves c res s j (lose c reason) w (λ x. refl)
                  (open_AttemptStep _ _ refl refl refl open_state refl))
                (expire_operation-Moves c spec c.database lost) in
            if_intro (Moves s)
              ((expire_operation c spec c.database lost).1 || is_terminal j.operation.state) _ _
              (λ _. moved)
              λ e. Moves-trans moved (
                Moves-operation _ j.attempt.operation_id (wait_reconciling reason) (λ x. refl)
                  λ x h. open_OperationStep x _ refl refl refl (
                    ap (λ (o : Operation). is_terminal o.state)
                      (same_row _ j.operation x w.joined.operation (
                        sym (
                          ap (find operation_key j.attempt.operation_id)
                            (expire_operation-kept c spec c.database lost (or_left _ _ e)))
                        ∙ h))
                    ∙ or_right _ _ e))

  pub mark_send-Moves : OnOk (Moves s) (mark_send c res s)
  unfolding mark_send
  mark_send-Moves = OnOk-bind (IsOwned res s) (Moves s) (owned res s) _ (owned-IsOwned res s) λ j w.
      OnOk-guard (Moves s) (can_send c res j s) _ _ λ sendable.
        OnOk-bind (λ t. Moves s t × (t.attempts ≡ s.attempts)) (Moves s) _ _
          (OnOk-if (λ t. Moves s t × (t.attempts ≡ s.attempts)) j.attempt.budget_held (ok s)
            (charge_send c res j s) (λ _. (Moves-refl s, refl)) (λ _. charge_send-Moves c res s j))
          (λ t done. Moves-trans done.0 (
            Moves-attempt t res.attempt_id (send_intent_row c) (λ x. refl)
              λ x e.
                open_AttemptStep x _ refl refl refl
                  (ap (λ (b : Attempt). is_settled b.state)
                      (same_row _ j.attempt x w.joined.attempt
                        (ap (find attempt_key res.attempt_id) (sym done.1) ∙ e))
                    ∙ reserved-open j.attempt.state (sendable-reserved j sendable))
                  refl))
