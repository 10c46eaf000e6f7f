-- ===== src/Ledger/Overlap.antt =====
-- store.py: transactions of `update_target` that overlap. The SELECT takes no lock, so others may
-- commit between it and the UPDATE; the UPDATE itself waits for the row, and counts up what it finds.
use mta_runtime_intramind.Base.{ℕ, zero, suc, Option, none, some, List, [], ◌∷◌, Result, ok, err}
use mta_runtime_intramind.Base.Int.{ℤ}
use mta_runtime_intramind.Ledger.State.{Ledger}
use mta_runtime_intramind.Ledger.Engine.{read_envelope, write_target}

-- A transaction that has passed its checks and has not written yet.
pub record Pending : Type 0 where
  pub pool_id : ℕ
  pub target : ℕ
  pub version : ℕ
  pub reason : ℕ

pub record Overlap : Type 0 where
  pub ledger : Ledger
  pub pending : List Pending

pub data Statement : Type 0 where
  -- pool, target, version and reason
  selects : ℕ → ℤ → ℕ → ℕ → Statement
  -- the place of the transaction among those that are pending
  updates : ℕ → Statement

unfoldable pub pick : ℕ → List Pending → Option (Pending × List Pending)
pick n [] = none
pick zero (u ∷ us) = some (u, us)
pick (suc n) (u ∷ us) = elim (pick n us) [ none ↦ none | some rest ↦ some (rest.0, u ∷ rest.1) ]

abbrev pub after_select : ℕ → ℕ → ℕ → Overlap → Result ℕ → Overlap
after_select pool version reason o (err e) = o
after_select pool version reason o (ok n) = record o {
  pending = record { pool_id = pool; target = n; version = version; reason = reason } ∷ o.pending;
}

abbrev pub after_pick : Overlap → Option (Pending × List Pending) → Overlap
after_pick o none = o
after_pick o (some (u, us)) = record {
  ledger = write_target u.pool_id u.target u.version u.reason o.ledger;
  pending = us;
}

unfoldable pub run_statement : Statement → Overlap → Overlap
unfolding read_envelope write_target pick
run_statement (selects pool target version reason) o =
    after_select pool version reason o (read_envelope pool target version o.ledger)
run_statement (updates n) o = after_pick o (pick n o.pending)

unfoldable pub run_statements : List Statement → Overlap → Overlap
unfolding run_statement
run_statements [] o = o
run_statements (x ∷ xs) o = run_statements xs (run_statement x o)
