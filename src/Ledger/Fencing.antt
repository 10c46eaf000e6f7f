-- ===== src/Ledger/Fencing.antt =====
-- store.py, `_owned`: what the fence of owner, lease epoch and active attempt keeps out.
use mta_runtime_intramind.Base.{
  ℕ, ◌≡◌, refl, ap, true, false, Bool-cases, Option-cases, inl, inr, arith, ==→eq, Option, none,
  some, List, err, Error, runtime_conflict, stale_attempt_ownership,
}
use mta_runtime_intramind.Ledger.State.{
  Ledger, Clock, Attempt, Operation, attempt_key, operation_key,
}
use mta_runtime_intramind.Table.{find}
use mta_runtime_intramind.Ledger.Owned.{IsJoined, join-IsJoined}
use mta_runtime_intramind.Ledger.Attempts.{
  Reservation, Joined, join, names, holds, owned, mark_send, heartbeat, compute_finished, unknown,
}
use mta_runtime_intramind.Ledger.Results.{commit_result, fail}
use mta_runtime_intramind.Ledger.History.{
  Call, creates, submits, binds, reserves, marks_send, beats, finishes_compute, commits, loses,
  fails, cancels, finishes_run, perform,
}

-- The reservation that a call is made with, where it is the call of an owner.
abbrev pub reservation_of : Call → Option Reservation
reservation_of (marks_send res) = some res
reservation_of (beats lease res) = some res
reservation_of (finishes_compute res) = some res
reservation_of (commits res artifact usage attachments) = some res
reservation_of (loses res reason) = some res
reservation_of (fails res reason not_sent retry delay) = some res
reservation_of _ = none

owned-stale :
    (res : Reservation) (s : Ledger) (j : Joined)
    → join s res.attempt_id ≡ some j
    → holds res j ≡ false
    → owned res s ≡ err (runtime_conflict stale_attempt_ownership)
unfolding owned
owned-stale res s j found stale = rw (found, stale)

same_owned :
    (r res : Reservation) (s : Ledger) (e : Error)
    → some r ≡ some res
    → owned res s ≡ err e
    → owned r s ≡ err e
same_owned r res s e same h = cc

-- A call of an owner raises what `_owned` raises.
raises-owned :
    (sha256 : ℕ → List ℕ) (c : Clock) (call : Call) (res : Reservation) (s : Ledger) (e : Error)
    → reservation_of call ≡ some res
    → owned res s ≡ err e
    → perform sha256 c call s ≡ err e
unfolding perform mark_send heartbeat compute_finished commit_result unknown fail
raises-owned sha256 c (marks_send r) res s e same h = rw (same_owned r res s e same h)
raises-owned sha256 c (beats lease r) res s e same h = rw (same_owned r res s e same h)
raises-owned sha256 c (finishes_compute r) res s e same h = rw (same_owned r res s e same h)
raises-owned sha256 c (commits r artifact usage attachments) res s e same h =
    rw (same_owned r res s e same h)
raises-owned sha256 c (loses r reason) res s e same h = rw (same_owned r res s e same h)
raises-owned sha256 c (fails r reason not_sent retry delay) res s e same h =
    rw (same_owned r res s e same h)
raises-owned sha256 c (creates spec) res s e same h = absurd (cc)
raises-owned sha256 c (submits at spec) res s e same h = absurd (cc)
raises-owned sha256 c (binds o t b k) res s e same h = absurd (cc)
raises-owned sha256 c (reserves pool draw) res s e same h = absurd (cc)
raises-owned sha256 c (cancels root tenant) res s e same h = absurd (cc)
raises-owned sha256 c (finishes_run at root tenant state result reason) res s e same h = absurd (cc)

-- The reservation stands for what the ledger holds: its attempt has its owner and its lease epoch, and
-- is the active one of the attempt's operation.
pub record IsCurrent (res : Reservation) (s : Ledger) : Type 0 where
  pub attempt : Attempt
  pub operation : Operation
  pub found : find attempt_key res.attempt_id s.attempts ≡ some attempt
  pub of_operation : find operation_key attempt.operation_id s.operations ≡ some operation
  pub owner : attempt.owner_id ≡ res.owner_id
  pub epoch : attempt.lease_epoch ≡ res.lease_epoch
  pub active : operation.active_attempt ≡ some res.attempt_id

pub names-some : (o : Option ℕ) (id : ℕ) → names o id ≡ true → o ≡ some id
names-some none id e = absurd (cc)
names-some (some x) id e = ap some (==→eq x id e)

holds-IsCurrent :
    (res : Reservation) (s : Ledger) (j : Joined)
    → IsJoined s res.attempt_id j
    → holds res j ≡ true
    → IsCurrent res s
holds-IsCurrent res s j w h = record {
  attempt = j.attempt;
  operation = j.operation;
  found = w.attempt;
  of_operation = w.operation;
  owner = ground (arith, h);
  epoch = ground (arith, h);
  active = names-some j.operation.active_attempt res.attempt_id (ground (arith, h));
}

not_current-owned :
    (res : Reservation) (s : Ledger)
    → ¬ IsCurrent res s
    → owned res s ≡ err (runtime_conflict stale_attempt_ownership)
unfolding owned
not_current-owned res s stale = elim (Option-cases (join s res.attempt_id)) [
  | inl e ↦ rw (e) refl
  | inr (j, e) ↦ elim (Bool-cases (holds res j)) [
    | inl h ↦ absurd (stale (holds-IsCurrent res s j (join-IsJoined s res.attempt_id j e) h))
    | inr h ↦ owned-stale res s j e h
  ]
]

-- A reservation whose attempt is gone, or has another owner or another lease epoch, or is not the
-- active one of its operation, is refused by every call of an owner with the same conflict, whatever
-- the rest of the call's arguments.
pub stale_refused :
    (sha256 : ℕ → List ℕ) (c : Clock) (call : Call) (res : Reservation) (s : Ledger)
    → reservation_of call ≡ some res
    → ¬ IsCurrent res s
    → perform sha256 c call s ≡ err (runtime_conflict stale_attempt_ownership)
stale_refused sha256 c call res s e stale =
    raises-owned sha256 c call res s _ e (not_current-owned res s stale)
