-- ===== src/Ledger/Owned.antt =====
-- What `_owned` establishes: the join's rows, and the fence.
use mta_runtime_intramind.Base.{
  ℕ, ◌≡◌, sym, ap, subst, true, some, arith, ok, OnOk, OnOk-or_raise, OnOk-guard,
}
use mta_runtime_intramind.Table.{find, find-key}
use mta_runtime_intramind.Ledger.State.{Ledger, Operation, root_key, operation_key, attempt_key}
use mathlib.Core.Option
use mta_runtime_intramind.Ledger.Attempts.{Reservation, Joined, join, owned, holds}

pub record IsJoined (s : Ledger) (id : ℕ) (j : Joined) : Type 0 where
  pub attempt : find attempt_key id s.attempts ≡ some j.attempt
  pub operation : find operation_key j.attempt.operation_id s.operations ≡ some j.operation
  pub root : find root_key j.operation.root_id s.roots ≡ some j.root

pub record IsOwned (res : Reservation) (s : Ledger) (j : Joined) : Type 0 where
  pub joined : IsJoined s res.attempt_id j
  pub fenced : holds res j ≡ true

-- A join that answers has found its three rows.
pub join-IsJoined : (s : Ledger) (id : ℕ) (j : Joined) → join s id ≡ some j → IsJoined s id j
unfolding join
join-IsJoined s id j e = record {
  attempt = ground arith;
  operation = ground arith;
  root = ground arith;
}

pub owned-IsOwned : (res : Reservation) (s : Ledger) → OnOk (IsOwned res s) (owned res s)
unfolding owned
owned-IsOwned res s = OnOk-or_raise (IsOwned res s) (join s res.attempt_id) _ _ λ j e.
    OnOk-guard (IsOwned res s) (holds res j) _ (ok j)
      λ h. record { joined = join-IsJoined s res.attempt_id j e; fenced = h }

-- The attempt that is joined has the identity that was asked for.
pub IsJoined-key : {s : Ledger} {id : ℕ} {j : Joined} → IsJoined s id j → j.attempt.attempt_id ≡ id
IsJoined-key {s} {id} {j} v = find-key attempt_key id s.attempts j.attempt v.attempt

pub IsJoined-found :
    {s : Ledger} {id : ℕ} {j : Joined}
    → IsJoined s id j
    → find attempt_key j.attempt.attempt_id s.attempts ≡ some j.attempt
IsJoined-found {s} {id} {j} v =
    subst (λ k. find attempt_key k s.attempts ≡ some j.attempt) (sym (IsJoined-key v)) v.attempt

-- The operation's row names the root that is joined.
pub IsJoined-root :
    {s : Ledger} {id : ℕ} {j : Joined}
    → IsJoined s id j
    → Option.map
        (λ (o : Operation). o.root_id)
        (find operation_key j.attempt.operation_id s.operations)
      ≡ some j.operation.root_id
IsJoined-root v = ap (Option.map (λ (o : Operation). o.root_id)) v.operation
