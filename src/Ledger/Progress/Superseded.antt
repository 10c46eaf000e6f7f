-- ===== src/Ledger/Progress/Superseded.antt =====
-- store.py: a new attempt of an operation fences the owner of the one before.
use mta_runtime_intramind.Base.{
  ℕ, ◌≡◌, ◌≢◌, sym, ap, ◌∙◌, some, List, ok, err, OnOk-eq, runtime_conflict,
  stale_attempt_ownership, arith,
}
use mta_runtime_intramind.Table.{find}
use mta_runtime_intramind.Ledger.State.{
  Ledger, Clock, Attempt, Operation, attempt_key, operation_key,
}
use mta_runtime_intramind.Ledger.Attempts.{Reservation}
use mta_runtime_intramind.Ledger.Reserve.{Draw, reserve_next}
use mta_runtime_intramind.Ledger.History.{Call, perform}
use mta_runtime_intramind.Ledger.Fencing.{reservation_of, IsCurrent, stale_refused, names-some}
use mta_runtime_intramind.Ledger.Progress.Grants.{IsGranted, Reserved, reserve_next-Reserved}

some-injective : {A : Type 0} {x y : A} → some x ≡ some y → x ≡ y
some-injective e = cc

-- The attempts of an operation name the same row, and it has one active attempt.
granted-not-IsCurrent :
    (c : Clock) (lease : ℕ) (res old : Reservation) (t : Ledger) (a : Attempt)
    → IsGranted c lease res t
    → find attempt_key old.attempt_id t.attempts ≡ some a
    → ((b : Attempt)
        → find attempt_key res.attempt_id t.attempts ≡ some b
        → a.operation_id ≡ b.operation_id)
    → old.attempt_id ≢ res.attempt_id
    → ¬ IsCurrent old t
granted-not-IsCurrent c lease res old t a g found same differs w = differs (some-injective named)
  where
    active : g.row.operation.active_attempt ≡ some res.attempt_id
    active =
        names-some g.row.operation.active_attempt res.attempt_id
          (let fenced = g.owned.fenced in ground (arith, fenced))

    one_attempt : w.attempt ≡ a
    one_attempt = some-injective (sym w.found ∙ found)

    operation_id : w.attempt.operation_id ≡ g.row.attempt.operation_id
    operation_id =
        ap (λ (x : Attempt). x.operation_id) one_attempt ∙ same g.row.attempt g.owned.joined.attempt

    one_operation : w.operation ≡ g.row.operation
    one_operation = some-injective (
        sym w.of_operation
        ∙ ap (λ k. find operation_key k t.operations) operation_id
        ∙ g.owned.joined.operation)

    named : some old.attempt_id ≡ some res.attempt_id
    named = sym w.active ∙ ap (λ (o : Operation). o.active_attempt) one_operation ∙ active

-- Where `reserve_next` answers with a reservation, every reservation of another attempt of the same
-- operation is refused in the ledger that it left: each call of an owner with one
-- raises the conflict of stale attempt ownership.
pub reserve_next-Supersedes :
    (sha256 : ℕ → List ℕ) (c now : Clock) (pool : ℕ) (draw : Draw) (s t : Ledger)
    (res old : Reservation) (call : Call) (a b : Attempt)
    → reserve_next c pool draw s ≡ ok (t, some res)
    → find attempt_key old.attempt_id t.attempts ≡ some a
    → find attempt_key res.attempt_id t.attempts ≡ some b
    → a.operation_id ≡ b.operation_id
    → old.attempt_id ≢ res.attempt_id
    → reservation_of call ≡ some old
    → perform sha256 now call t ≡ err (runtime_conflict stale_attempt_ownership)
reserve_next-Supersedes sha256 c now pool draw s t res old call a b e found_old found same differs
      shown =
    let (moves, g) =
      OnOk-eq (Reserved c draw.lease s) (reserve_next c pool draw s) (t, some res)
        (reserve_next-Reserved c pool draw s) e in
    stale_refused sha256 now call old t shown (
      granted-not-IsCurrent c draw.lease res old t a g found_old
        (λ x f. same ∙ ap (λ (y : Attempt). y.operation_id) (some-injective (sym found ∙ f)))
        differs)
