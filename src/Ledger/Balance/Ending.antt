-- ===== src/Ledger/Balance/Ending.antt =====
-- `commit_result` and `fail` keep the books: the attempt is settled, then it ends.
use mta_runtime_intramind.Base.{
  ℕ, ◌≡◌, refl, sym, ap, ◌∙◌, Bool, true, false, not, ◌&&◌, ◌||◌, Option, some, List, ◌∷◌, arith,
  ==_refl, if_intro, ◌+◌, OnOk, OnOk-any, OnOk-bind, OnOk-if, OnOk-raise_if,
}
use mta_runtime_intramind.Base.Int.{ℤ}
use mta_runtime_intramind.Contracts.Operation.{Artifact}
use mta_runtime_intramind.Table.{find, update, find-update, update-update}
use mta_runtime_intramind.Ledger.State.{
  Ledger, Clock, Attempt, AttemptState, ArtifactRow, Reason, is_settled, is_terminal, is_running,
  attempt_key,
}
use mta_runtime_intramind.Ledger.Events.{expire_operation}
use mta_runtime_intramind.Ledger.Attempts.{Reservation, Joined, owned}
use mta_runtime_intramind.Ledger.Results.{
  insert_artifacts, publish, commit_new, commit_result, commit_row, succeed, was_cancelled,
  disposition_of, is_committed, is_backend_finished, differs, after_failure, failed_row, wait_retry,
  fail,
}
use mta_runtime_intramind.Ledger.Owned.{IsOwned, owned-IsOwned, IsJoined-found, IsJoined-root}
use mta_runtime_intramind.Ledger.Balance.Invariant.{spec_of, IsValidAttempt, IsConsistent}
use mta_runtime_intramind.Ledger.Balance.Columns.{budget_of-eq}
use mta_runtime_intramind.Ledger.Balance.Frame.{Frame, Frame-refl, Frame-trans, Frame-IsConsistent}
use mta_runtime_intramind.Ledger.Balance.Quiet.{
  operations-Frame, terminal-Frame, completion_events-Frame, expire_operation-Frame,
}
use mta_runtime_intramind.Ledger.Balance.Relabel.{
  SameBooks, with_attempts, relabel-IsBalanced, assemble-IsConsistent,
}
use mta_runtime_intramind.Ledger.Balance.Settling.{Settled, settle-Settled}
use mathlib.Core.Option

finished-open : (state : AttemptState) → is_backend_finished state ≡ true → is_settled state ≡ false
finished-open state e = ground arith

-- A settled attempt whose row then ends leaves a consistent ledger.
module _ (s t : Ledger) (a : Attempt) (g : Attempt → Attempt)
    (found : find attempt_key a.attempt_id s.attempts ≡ some a) (settled : Settled a s t) where
  abbrev pub last : Attempt
  last = settled.row a

  pub found_last : find attempt_key a.attempt_id t.attempts ≡ some last
  found_last =
      ap (find attempt_key a.attempt_id) settled.attempts
      ∙ find-update attempt_key a.attempt_id a.attempt_id settled.row s.attempts settled.row_key
      ∙ rw (==_refl a.attempt_id) (ap (Option.map settled.row) found)

  pub ended-IsConsistent :
      SameBooks last (g last)
      → ((x : Attempt) → (g x).attempt_id ≡ x.attempt_id)
      → ((x : Attempt) → (g x).operation_id ≡ x.operation_id)
      → IsValidAttempt (g last)
      → IsConsistent s
      → IsConsistent (with_attempts t a.attempt_id g)
  ended-IsConsistent same key operation valid v =
      assemble-IsConsistent s (with_attempts t a.attempt_id g) a.attempt_id (λ x. g (settled.row x))
        a found (λ x. key (settled.row x) ∙ settled.row_key x)
        (λ x. operation (settled.row x) ∙ settled.row_operation x)
        (ap (update attempt_key a.attempt_id g) settled.attempts
          ∙ update-update attempt_key a.attempt_id settled.row g s.attempts settled.row_key)
        settled.operations settled.kept
        (relabel-IsBalanced t a.attempt_id g last found_last same settled.balanced) valid
        (λ spec e.
          let (bound, unit) =
            v.priced a.attempt_id a found spec
              (ap (spec_of s.operations) (sym (same.operation ∙ settled.row_operation a)) ∙ e) in
          (same.bound ∙ settled.row_bound ∙ bound, same.unit ∙ settled.row_unit ∙ unit))
        v

failed_row-settled :
    (not_sent : Bool) (reason : Reason) (a : Attempt)
    → is_settled (failed_row not_sent reason a).state ≡ true
failed_row-settled true reason a = refl
failed_row-settled false reason a = refl

failed-IsConsistent :
    (s t : Ledger) (a : Attempt) (reason : Reason) (not_sent : Bool)
    → find attempt_key a.attempt_id s.attempts ≡ some a
    → Settled a s t
    → IsConsistent s
    → IsConsistent (with_attempts t a.attempt_id (failed_row not_sent reason))
failed-IsConsistent s t a reason not_sent found settled v =
    ended-IsConsistent s t a (failed_row not_sent reason) found settled
      (record { operation = refl; unit = refl; bound = refl; held = refl; usage = refl })
      (λ x. refl) (λ x. refl)
      (record {
        released = λ h. (refl, settled.row_budget);
        covered = λ h. absurd (cc);
        unused = λ h. absurd (cc (failed_row-settled not_sent reason (settled.row a)));
      })
      v

committed-IsConsistent :
    (c : Clock) (s t : Ledger) (a : Attempt)
    → find attempt_key a.attempt_id s.attempts ≡ some a
    → a.compute_held ≡ false
    → Settled a s t
    → IsConsistent s
    → IsConsistent (with_attempts t a.attempt_id (commit_row c))
committed-IsConsistent c s t a found stopped settled v =
    ended-IsConsistent s t a (commit_row c) found settled
      (record { operation = refl; unit = refl; bound = refl; held = refl; usage = refl })
      (λ x. refl) (λ x. refl)
      (record {
        released = λ h. (settled.row_compute ∙ stopped, settled.row_budget);
        covered = λ h. absurd (cc (settled.row_compute ∙ stopped));
        unused = λ h. absurd (cc);
      })
      v

after_failure-Frame :
    (c : Clock) (j : Joined) (reason : Reason) (retry : Bool) (delay : ℕ) (s : Ledger)
    → Frame s (after_failure c j reason retry delay s)
unfolding after_failure
after_failure-Frame c j reason retry delay s =
    let op = j.attempt.operation_id in
    let quiet = expire_operation-Frame c j.operation.spec c.database s in
    if_intro (Frame s) (is_terminal j.operation.state) _ _ (λ _. Frame-refl s)
      λ _.
        if_intro (Frame s) j.root.cancel_requested _ _ (λ _. terminal-Frame c op _ _ s)
          λ _.
            if_intro (Frame s) (not (is_running j.root.state)) _ _ (λ _. terminal-Frame c op _ _ s)
              λ _.
                if_intro (Frame s) (expire_operation c j.operation.spec c.database s).1 _ _
                  (λ _. quiet)
                  λ _.
                    if_intro (Frame s) retry _ _
                      (λ _.
                        operations-Frame s op (wait_retry reason (c.process + delay)) (λ x. refl)
                          (λ x. refl) (λ x. refl))
                      (λ _. terminal-Frame c op _ _ s)

publish-Frame :
    (c : Clock) (j : Joined) (artifact : Artifact) (ended : Bool) (s : Ledger)
    → Frame s (publish c j artifact ended s)
unfolding publish
publish-Frame c j artifact ended s =
    if_intro (Frame s) ended _ _ (λ _. Frame-refl s)
      λ _.
        if_intro (Frame s) (was_cancelled j) _ _
          (λ _. terminal-Frame c j.attempt.operation_id _ _ s)
          (λ _.
            operations-Frame s j.attempt.operation_id (succeed artifact) (λ x. refl) (λ x. refl)
              (λ x. refl))

artifacts-Frame : (s : Ledger) (rows : List ArtifactRow) → Frame s (record s { artifacts = rows })
artifacts-Frame s rows = record {
  budgets = λ root unit. budget_of-eq s (record s { artifacts = rows }) root unit refl refl;
  attempts = refl;
  roots = λ id. refl;
  specs = λ id. refl;
  kept = λ root e. e;
}

module _ (c : Clock) (res : Reservation) (s : Ledger) (v : IsConsistent s) where
  pub fail-IsConsistent :
      (reason : Reason) (not_sent retry : Bool) (delay : ℕ)
      → OnOk IsConsistent (fail c res reason not_sent retry delay s)
  unfolding fail
  fail-IsConsistent reason not_sent retry delay =
      OnOk-bind (IsOwned res s) IsConsistent (owned res s) _ (owned-IsOwned res s) λ j w.
        let valid = v.rows res.attempt_id j.attempt w.joined.attempt in
        let found = IsJoined-found w.joined in
        OnOk-if IsConsistent (is_settled j.attempt.state) _ _ (λ _. v)
          λ open_state. OnOk-raise_if IsConsistent (j.attempt.compute_held && not not_sent) _ _ λ _.
            OnOk-bind (Settled j.attempt s) IsConsistent _ _
              (settle-Settled c j.attempt j.operation.root_id s found (IsJoined-root w.joined)
                v.balanced _ (λ _. valid.unused open_state))
              λ t settled.
                Frame-IsConsistent (after_failure-Frame c j reason retry delay _)
                  (failed-IsConsistent s t j.attempt reason not_sent found settled v)

  commit_new-IsConsistent :
      (sha256 : ℕ → List ℕ) (j : Joined) (artifact : Artifact) (usage : Option ℤ)
      (attachments : List Artifact)
      → IsOwned res s j
      → is_settled j.attempt.state ≡ false
      → j.attempt.compute_held ≡ false
      → OnOk IsConsistent (commit_new sha256 c j artifact usage attachments s)
  unfolding commit_new
  commit_new-IsConsistent sha256 j artifact usage attachments w open_state stopped =
      let a = j.attempt in
      let valid = v.rows res.attempt_id a w.joined.attempt in
      let found = IsJoined-found w.joined in
      let (s₁, gone) = expire_operation c j.operation.spec c.database s in
      let ended = gone || is_terminal j.operation.state in
      OnOk-bind (λ rows. Unit) IsConsistent
        (insert_artifacts sha256 j (disposition_of (was_cancelled j) ended) (artifact ∷ attachments)
          s₁.artifacts)
        _ (OnOk-any _)
        λ rows _.
          let quiet =
            Frame-trans (expire_operation-Frame c j.operation.spec c.database s)
              (artifacts-Frame s₁ rows) in
          let s₂ : Ledger = record s₁ { artifacts = rows } in
          let v₂ = Frame-IsConsistent quiet v in
          let found₂ = ap (find attempt_key a.attempt_id) quiet.attempts ∙ found in
          let drawn = quiet.roots a.operation_id ∙ IsJoined-root w.joined in
          OnOk-bind (Settled a s₂) IsConsistent _ _
            (settle-Settled c a j.operation.root_id s₂ found₂ drawn v₂.balanced usage
              (λ _. valid.unused open_state))
            λ t settled.
              Frame-IsConsistent
                (Frame-trans (publish-Frame c j artifact ended _)
                  (completion_events-Frame c a.operation_id _))
                (committed-IsConsistent c s₂ t a found₂ stopped settled v₂)

  pub commit_result-IsConsistent :
      (sha256 : ℕ → List ℕ) (artifact : Artifact) (usage : Option ℤ) (attachments : List Artifact)
      → OnOk IsConsistent (commit_result sha256 c res artifact usage attachments s)
  unfolding commit_result
  commit_result-IsConsistent sha256 artifact usage attachments =
      OnOk-bind (IsOwned res s) IsConsistent (owned res s) _ (owned-IsOwned res s) λ j w.
        OnOk-if IsConsistent (is_committed j.attempt.state) _ _
          (λ _. OnOk-raise_if IsConsistent (differs j.operation.result artifact) _ _ λ _. v)
          λ _.
            OnOk-raise_if IsConsistent
              (j.attempt.compute_held || not (is_backend_finished j.attempt.state)) _ _
              λ h.
                commit_new-IsConsistent sha256 j artifact usage attachments w
                  (finished-open j.attempt.state (ground arith)) (ground arith)
