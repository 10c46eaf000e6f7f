-- ===== src/Ledger/Results.antt =====
-- store.py: `commit_result` and `fail`, the two ends of an attempt that its owner writes.
use mta_runtime_intramind.Base.{
  ℕ, ◌+◌, Bool, true, false, not, ◌&&◌, ◌||◌, Option, none, some, List, [], ◌∷◌, ◌++◌, ◌==◌,
  if◌then◌else◌, starts_with, decides, Result, ok, ◌>>=◌, ◌>>◌, raise_if, guard, runtime_conflict,
  not_found, integrity_error, committed_result_differs, termination_not_recorded, missing_result,
  unknown_compute,
}
use mta_runtime_intramind.Base.Int.{ℤ, pos}
use mta_runtime_intramind.Contracts.Operation.{Artifact, Artifact-discrete}
use mta_runtime_intramind.Table.{update}
use mta_runtime_intramind.Ledger.State.{
  Ledger, Clock, Operation, OperationState, Attempt, AttemptState, ArtifactRow, Disposition,
  late_cancelled, late_terminal, Reason, user_cancelled, root_terminal, is_terminal, is_settled,
  is_running, operation_key, attempt_key,
}
use mta_runtime_intramind.Ledger.Events.{completion_events, terminal, expire_operation}
use mta_runtime_intramind.Ledger.Settle.{settle}
use mta_runtime_intramind.Ledger.Attempts.{Reservation, Joined, owned}

-- artifacts.tenant_prefix, over the hexadecimal SHA-256 digest of the tenant's identity
abbrev pub tenant_prefix : (ℕ → List ℕ) → ℕ → List ℕ
tenant_prefix sha256 tenant =
    b't' ∷ b'e' ∷ b'n' ∷ b'a' ∷ b'n' ∷ b't' ∷ b's' ∷ b'/' ∷ (sha256 tenant ++ b'/' ∷ [])

abbrev pub in_tenant : (ℕ → List ℕ) → ℕ → Artifact → Bool
in_tenant sha256 tenant ref = starts_with (tenant_prefix sha256 tenant) ref.key

abbrev pub same_text : List ℕ → List ℕ → Bool
same_text [] [] = true
same_text [] (d ∷ ds) = false
same_text (c ∷ cs) [] = false
same_text (c ∷ cs) (d ∷ ds) = c == d && same_text cs ds

-- The primary key (object_key, attempt_id) of runtime_artifacts.
unfoldable pub has_artifact : List ℕ → ℕ → List ArtifactRow → Bool
has_artifact key attempt [] = false
has_artifact key attempt (r ∷ rs) =
    (same_text r.manifest.key key && r.attempt_id == attempt) || has_artifact key attempt rs

abbrev pub artifact_row : Joined → Disposition → Artifact → ArtifactRow
artifact_row j disposition ref = record {
  tenant_id = j.operation.tenant_id;
  operation_id = j.attempt.operation_id;
  attempt_id = j.attempt.attempt_id;
  manifest = ref;
  disposition = disposition;
}

-- The loop over `(artifact, *attachments)`.
unfoldable pub insert_artifacts :
    (ℕ → List ℕ)
    → Joined
    → Disposition
    → List Artifact
    → List ArtifactRow
    → Result (List ArtifactRow)
insert_artifacts sha256 j disposition [] rows = ok rows
insert_artifacts sha256 j disposition (ref ∷ refs) rows = do
  guard (in_tenant sha256 j.operation.tenant_id ref) (not_found missing_result)
  raise_if (has_artifact ref.key j.attempt.attempt_id rows) integrity_error
  insert_artifacts sha256 j disposition refs (artifact_row j disposition ref ∷ rows)

abbrev pub is_cancelled : OperationState → Bool
is_cancelled OperationState.cancelled = true
is_cancelled _ = false

abbrev pub is_backend_finished : AttemptState → Bool
is_backend_finished AttemptState.backend_finished = true
is_backend_finished _ = false

abbrev pub is_committed : AttemptState → Bool
is_committed AttemptState.result_committed = true
is_committed _ = false

-- The attempt's owner still has its root, and the operation was not cancelled.
abbrev pub was_cancelled : Joined → Bool
was_cancelled j =
    j.root.cancel_requested || is_cancelled j.operation.state || not (is_running j.root.state)

abbrev pub disposition_of : Bool → Bool → Disposition
disposition_of true ended = late_cancelled
disposition_of false true = late_terminal
disposition_of false false = Disposition.result

abbrev pub commit_row : Clock → Attempt → Attempt
commit_row c a = record a {
  state = AttemptState.result_committed;
  result_committed_at = some c.transaction;
}

abbrev pub succeed : Artifact → Operation → Operation
succeed artifact o = record o {
  state = OperationState.succeeded;
  result = some artifact;
  wait_reason = none;
}

-- What happens to the operation: the result is published, or a cancelled one ends.
unfoldable pub publish : Clock → Joined → Artifact → Bool → Ledger → Ledger
unfolding terminal
publish c j artifact ended s =
    if ended
    then s
    else if was_cancelled j
    then terminal c j.attempt.operation_id OperationState.failed root_terminal s
    else record s {
      operations = update operation_key j.attempt.operation_id (succeed artifact) s.operations;
    }

-- `commit_result` behind its replay branch
unfoldable pub commit_new :
    (ℕ → List ℕ) → Clock → Joined → Artifact → Option ℤ → List Artifact → Ledger → Result Ledger
unfolding expire_operation settle publish insert_artifacts completion_events
commit_new sha256 c j artifact usage attachments s = do
  let (s₁, gone) = expire_operation c j.operation.spec c.database s
  let ended = gone || is_terminal j.operation.state
  rows ←
      insert_artifacts sha256 j (disposition_of (was_cancelled j) ended) (artifact ∷ attachments)
        s₁.artifacts
  s₂ ← settle c j.attempt j.operation.root_id usage (record s₁ { artifacts = rows })
  let s₃ = record s₂ {
    attempts = update attempt_key j.attempt.attempt_id (commit_row c) s₂.attempts;
  }
  ok (completion_events c j.attempt.operation_id (publish c j artifact ended s₃))

-- `existing["result"] and existing["result"] != artifact`
abbrev pub differs : Option Artifact → Artifact → Bool
differs none artifact = false
differs (some old) artifact = not (decides (Artifact-discrete old artifact))

-- `commit_result`
unfoldable pub commit_result :
    (ℕ → List ℕ)
    → Clock
    → Reservation
    → Artifact
    → Option ℤ
    → List Artifact
    → Ledger
    → Result Ledger
unfolding owned commit_new
commit_result sha256 c res artifact usage attachments s = do
  j ← owned res s
  if is_committed j.attempt.state
      then (do
        raise_if (differs j.operation.result artifact) (runtime_conflict committed_result_differs)
        ok s)
      else (do
        raise_if (j.attempt.compute_held || not (is_backend_finished j.attempt.state))
            (runtime_conflict termination_not_recorded)
        commit_new sha256 c j artifact usage attachments s)

abbrev pub failed_row : Bool → Reason → Attempt → Attempt
failed_row not_sent reason a = record a {
  state = if not_sent then AttemptState.failed_not_sent else AttemptState.failed;
  compute_held = false;
  error_class = some reason;
}

abbrev pub wait_retry : Reason → ℕ → Operation → Operation
wait_retry reason at o = record o {
  state = OperationState.retry_wait;
  wait_reason = some reason;
  retry_at = some at;
}

-- The operation after its attempt has failed: the chain of `if` at the end of `fail`.
unfoldable pub after_failure : Clock → Joined → Reason → Bool → ℕ → Ledger → Ledger
unfolding terminal expire_operation
after_failure c j reason retry delay s =
    if is_terminal j.operation.state
    then s
    else if j.root.cancel_requested
    then terminal c j.attempt.operation_id OperationState.cancelled user_cancelled s
    else if not (is_running j.root.state)
    then terminal c j.attempt.operation_id OperationState.failed root_terminal s
    else let (s', gone) = expire_operation c j.operation.spec c.database s in
      if gone
      then s'
      else if retry
      then record s {
        operations =
            update operation_key j.attempt.operation_id (wait_retry reason (c.process + delay))
              s.operations;
      }
      else terminal c j.attempt.operation_id OperationState.failed reason s

-- `fail`
unfoldable pub fail : Clock → Reservation → Reason → Bool → Bool → ℕ → Ledger → Result Ledger
unfolding owned settle after_failure
fail c res reason not_sent retry delay s = do
  j ← owned res s
  if is_settled j.attempt.state then ok s else (do
    raise_if (j.attempt.compute_held && not not_sent) (runtime_conflict unknown_compute)
    s₁ ← settle c j.attempt j.operation.root_id (if not_sent then some (pos 0) else none) s
    ok (
        after_failure c j reason retry delay (record s₁ {
          attempts =
              update attempt_key j.attempt.attempt_id (failed_row not_sent reason) s₁.attempts;
        })))
