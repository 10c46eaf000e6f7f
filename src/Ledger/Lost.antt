-- ===== src/Ledger/Lost.antt =====
-- store.py: `settle_idle_unknown` and `_settle_lost_results`.
use mta_runtime_intramind.Base.{
  ℕ, ◌+◌, Bool, true, false, not, ◌&&◌, ◌||◌, Option, none, some, List, [], ◌∷◌, ltb, ◌==◌,
  if◌then◌else◌, select, count, contains, length, Result, ok, err, ◌>>=◌,
}
use mta_runtime_intramind.Table.{find, update_where, rows, order_by}
use mta_runtime_intramind.Ledger.State.{
  Ledger, Clock, Attempt, AttemptState, engine_idle_verified, engine_recovery,
  result_lost_after_backend_finished, Pool, DirectAttempt, DirectState, attempt_key, pool_key,
  owner_key,
}
use mta_runtime_intramind.Ledger.Attempts.{Joined, join}
use mta_runtime_intramind.Ledger.Results.{is_backend_finished}
use mta_runtime_intramind.Ledger.Stopping.{
  joined_rows, created, each_row, settle_stopped_attempt, of_epoch, of_direct_epoch, stop_direct,
}

abbrev pub is_before : Option ℕ → ℕ → Bool
is_before none at = false
is_before (some t) at = ltb t at

abbrev pub is_unknown : AttemptState → Bool
is_unknown AttemptState.unknown = true
is_unknown _ = false

abbrev pub is_unknown_direct : DirectState → Bool
is_unknown_direct DirectState.unknown = true
is_unknown_direct _ = false

abbrev pub is_idle : ℕ → ℕ → ℕ → List ℕ → Joined → Bool
is_idle pool epoch since ids j =
    of_epoch pool epoch j.attempt
    && j.attempt.compute_held
    && is_unknown j.attempt.state
    && is_before j.attempt.unknown_at since
    && contains j.attempt.attempt_id ids

abbrev pub is_idle_direct : ℕ → ℕ → ℕ → List ℕ → DirectAttempt → Bool
is_idle_direct pool epoch since ids d =
    of_direct_epoch pool epoch d
    && is_unknown_direct d.state
    && is_before d.unknown_at since
    && contains d.attempt_id ids

abbrev pub has_epoch : Option Pool → ℕ → Bool
has_epoch none epoch = false
has_epoch (some p) epoch = p.engine_epoch == epoch

abbrev pub clear_directs : Clock → ℕ → ℕ → ℕ → List ℕ → Ledger → Ledger
clear_directs c pool epoch since ids s = record s {
  direct_attempts =
      update_where (is_idle_direct pool epoch since ids)
        (stop_direct c DirectState.failed_recoverable engine_idle_verified) s.direct_attempts;
}

-- `settle_idle_unknown`
unfoldable pub settle_idle_unknown : Clock → ℕ → ℕ → ℕ → List ℕ → Ledger → Result (Ledger × ℕ)
unfolding joined_rows order_by each_row settle_stopped_attempt
settle_idle_unknown c pool epoch since ids s =
    let cleared = clear_directs c pool epoch since ids s in
    let idle = order_by created (select (is_idle pool epoch since ids) (joined_rows cleared)) in
    if not (has_epoch (find pool_key pool s.pools) epoch) then ok (s, 0) else (do
      t ← each_row (settle_stopped_attempt c true engine_idle_verified engine_recovery) idle cleared
      ok (t, length idle + count (is_idle_direct pool epoch since ids) s.direct_attempts))

-- An owner whose lease has not run out at the instant.
unfoldable pub has_lease : ℕ → ℕ → Ledger → Bool
has_lease at id s = elim (find owner_key id s.owners) [
  | none ↦ false
  | some o ↦ ltb at o.lease_expires_at
]

abbrev pub is_given : {A : Type 0} → Option A → Bool
is_given none = false
is_given (some a) = true

-- `lost`, the condition of `_settle_lost_results`
unfoldable pub is_lost : Clock → Ledger → Attempt → Bool
unfolding has_lease
is_lost c s a =
    not a.compute_held
    && not (is_given a.result_committed_at)
    && ((is_backend_finished a.state
          && ltb a.lease_expires_at c.transaction
          && not (has_lease c.transaction a.owner_id s))
        || (is_unknown a.state && is_given a.backend_finished_at))

-- One turn of `_settle_lost_results`, a transaction of its own, which checks the row again. A row
-- that another transaction has locked is passed over. With the ledger, whether it settled one.
unfoldable pub settle_lost : Clock → Bool → ℕ → Ledger → Result (Ledger × Bool)
unfolding join is_lost settle_stopped_attempt
settle_lost c locked id s = elim (join s id) [
  | none ↦ ok (s, false)
  | some j ↦ if locked || not (is_lost c s j.attempt) then ok (s, false) else (do
    t ←
        settle_stopped_attempt c true result_lost_after_backend_finished
          result_lost_after_backend_finished j s
    ok (t, true))
]

unfoldable pub lost_ids : Clock → Ledger → List Attempt → List ℕ
unfolding is_lost
lost_ids c s [] = []
lost_ids c s (a ∷ others) =
    let rest = lost_ids c s others in if is_lost c s a then a.attempt_id ∷ rest else rest

-- A turn that raises is logged, and leaves the others to be settled.
abbrev pub keep_on : Ledger × ℕ → Result (Ledger × Bool) → Ledger × ℕ
keep_on x (err e) = x
keep_on x (ok (t, true)) = (t, x.1 + 1)
keep_on x (ok (t, false)) = (t, x.1)

unfoldable pub settle_lost_each : (ℕ → Clock × Bool) → List ℕ → Ledger × ℕ → Ledger × ℕ
unfolding settle_lost
settle_lost_each seen [] x = x
settle_lost_each seen (id ∷ ids) x =
    settle_lost_each seen ids (keep_on x (settle_lost (seen id).0 (seen id).1 id x.0))

abbrev pub row_created : Attempt → ℕ
row_created a = a.created_at

-- `_settle_lost_results` with nothing in between; `seen` gives each turn its clock, and whether the
-- row is locked
unfoldable pub settle_lost_results : Clock → (ℕ → Clock × Bool) → Ledger → Ledger × ℕ
unfolding lost_ids settle_lost_each rows order_by
settle_lost_results c seen s =
    settle_lost_each seen (lost_ids c s (order_by row_created (rows attempt_key s.attempts))) (s, 0)
