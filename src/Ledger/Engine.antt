-- ===== src/Ledger/Engine.antt =====
-- store.py: the owners' leases, `register_owner` and `heartbeat_owner`, and the operations on one
-- pool of an engine, `quiesce_engine` and `update_target`.
use mta_runtime_intramind.Base.{
  ℕ, ◌+◌, Bool, false, not, ◌&&◌, Option, none, some, ◌∷◌, leb, ◌==◌, if◌then◌else◌, Result, ok,
  err, ◌>>=◌, ◌>>◌, guard, raise_if, or_raise, runtime_conflict, value_error, admission_denied,
  owner_belongs_to_other, owner_fenced, token_required, epoch_mismatch, quiesced_by_other,
  not_available, stale_envelope, target_outside_ceiling,
}
use mta_runtime_intramind.Base.Int.{ℤ, pos, negsuc}
use mta_runtime_intramind.Table.{find, update}
use mta_runtime_intramind.Ledger.State.{Ledger, Clock, Pool, Owner, degraded, pool_key, owner_key}
use mta_runtime_intramind.Ledger.Attempts.{names}
use mta_runtime_intramind.Ledger.Reserve.{is_healthy}

abbrev pub extend_owner : Clock → ℕ → Owner → Owner
extend_owner c lease o = record o { lease_expires_at = c.transaction + lease }

-- `register_owner`: the boot generation that came first keeps the identity
unfoldable pub register_owner : Clock → ℕ → ℕ → ℕ → Ledger → Result Ledger
register_owner c lease id boot s = elim (find owner_key id s.owners) [
  | none ↦ ok (record s {
    owners =
        record { owner_id = id; boot_generation = boot; lease_expires_at = c.transaction + lease }
        ∷ s.owners;
  })
  | some old ↦ (do
    guard (old.boot_generation == boot) (runtime_conflict owner_belongs_to_other)
    ok (record s { owners = update owner_key id (extend_owner c lease) s.owners }))
]

-- `heartbeat_owner`
unfoldable pub heartbeat_owner : Clock → ℕ → ℕ → ℕ → Ledger → Result Ledger
heartbeat_owner c lease id boot s = do
  old ← or_raise (find owner_key id s.owners) (runtime_conflict owner_fenced)
  guard (old.boot_generation == boot) (runtime_conflict owner_fenced)
  ok (record s { owners = update owner_key id (extend_owner c lease) s.owners })

abbrev pub other_token : Option ℕ → ℕ → Bool
other_token none token = false
other_token (some old) token = not (old == token)

abbrev pub quiesce_row : ℕ → Pool → Pool
quiesce_row token p = record p { target = 0; health = degraded; quiesce_token = some token }

-- `quiesce_engine`; a token that is empty or longer than 200 characters is `none`
unfoldable pub quiesce_engine : ℕ → ℕ → Option ℕ → Ledger → Result Ledger
quiesce_engine pool epoch none s = err (value_error token_required)
quiesce_engine pool epoch (some token) s = do
  p ← or_raise (find pool_key pool s.pools) (runtime_conflict epoch_mismatch)
  guard (p.engine_epoch == epoch) (runtime_conflict epoch_mismatch)
  raise_if (other_token p.quiesce_token token) (runtime_conflict quiesced_by_other)
  if not (is_healthy p.health) && names p.quiesce_token token then ok s else (do
    guard (is_healthy p.health) (runtime_conflict not_available)
    ok (record s { pools = update pool_key pool (quiesce_row token) s.pools }))

-- `target < 0 or target > p["hard_ceiling"]`, negated
abbrev pub within_ceiling : ℤ → ℕ → Option ℕ
within_ceiling (pos n) ceiling = if leb n ceiling then some n else none
within_ceiling (negsuc n) ceiling = none

abbrev pub retarget : ℕ → Pool → Pool
retarget target p = record p { target = target; envelope_version = p.envelope_version + 1 }

-- The SELECT of `update_target`, which takes no lock, and the checks on what it read: the target
unfoldable pub read_envelope : ℕ → ℤ → ℕ → Ledger → Result ℕ
read_envelope pool target version s = do
  p ← or_raise (find pool_key pool s.pools) (runtime_conflict stale_envelope)
  guard (p.envelope_version == version) (runtime_conflict stale_envelope)
  or_raise (within_ceiling target p.hard_ceiling) (admission_denied target_outside_ceiling false)

-- Its UPDATE, which names no version, and its INSERT.
unfoldable pub write_target : ℕ → ℕ → ℕ → ℕ → Ledger → Ledger
write_target pool target version reason s = record s {
  pools = update pool_key pool (retarget target) s.pools;
  controller_updates =
      record { pool_id = pool; envelope_version = version + 1; target = target; reason = reason }
      ∷ s.controller_updates;
}

-- `update_target` where no other transaction comes between its SELECT and its UPDATE
unfoldable pub update_target : ℕ → ℤ → ℕ → ℕ → Ledger → Result Ledger
unfolding read_envelope write_target
update_target pool target version reason s = do
  n ← read_envelope pool target version s
  ok (write_target pool n version reason s)
