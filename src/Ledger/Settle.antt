-- ===== src/Ledger/Settle.antt =====
-- store.py: `_settle`, which turns a reservation into spent budget, once.
use mta_runtime_intramind.Base.{
  ℕ, ◌+◌, ◌-◌, Bool, true, false, Option, none, some, ltb, leb, if◌then◌else◌, Result, ok, err,
  ◌>>=◌, ◌>>◌, or_raise, runtime_conflict, value_error, integrity_error, budget_ledger_missing,
  negative_usage, guard,
}
use mta_runtime_intramind.Base.Int.{ℤ, pos, negsuc}
use mta_runtime_intramind.Table.{update}
use mta_runtime_intramind.Ledger.State.{
  Ledger, Clock, Root, RootState, Pool, Attempt, Budget, degraded, is_running,
  observed_usage_exceeds_budget, root_key, attempt_key, pool_key,
}
use mta_runtime_intramind.Ledger.Budgets.{budget_of, adjust_budget}

-- `charged = a["budget_bound"] if usage is None else usage`, refused when negative
abbrev pub charged : Attempt → Option ℤ → Result ℕ
charged a none = ok a.budget_bound
charged a (some (pos n)) = ok n
charged a (some (negsuc n)) = err (value_error negative_usage)

abbrev pub is_none {ℓ} : {A : Type ℓ} → Option A → Bool
is_none none = true
is_none (some _) = false

abbrev pub record_usage : ℕ → Bool → Attempt → Attempt
record_usage usage estimated a = record a {
  budget_held = false;
  usage = some usage;
  usage_estimated = some estimated;
}

-- `reserved=reserved-:bound, spent=spent+:usage`; the caller has seen that the bound is covered.
abbrev pub spend : ℕ → ℕ → Budget → Budget
spend bound usage b = record b { reserved = b.reserved - bound; spent = b.spent + usage }

-- A root that has spent more than its limit fails, if it is still running.
abbrev pub overspend : Clock → Root → Root
overspend c r =
    if is_running r.state
    then record r {
      state = RootState.failed;
      terminal_reason = some observed_usage_exceeds_budget;
      finished_at = some c.transaction;
    }
    else r

abbrev pub degrade : Pool → Pool
degrade p = record p { target = 0; health = degraded }

-- The two consequences of what was observed: an overspent root, and a bound that did not hold.
unfoldable pub observe_usage : Clock → Attempt → ℕ → ℕ → Budget → Ledger → Ledger
observe_usage c a root usage b s =
    let s' = record s {
      roots = if ltb b.limit b.spent then update root_key root (overspend c) s.roots else s.roots;
    } in
    record s' {
      pools =
          if ltb a.budget_bound usage then update pool_key a.pool_id degrade s.pools else s.pools;
    }

-- The part of `_settle` behind its early return. The schema's CHECK (reserved >= 0) refuses an
-- UPDATE that would take more than is reserved.
unfoldable pub settle_held : Clock → Attempt → ℕ → ℕ → Bool → Ledger → Result Ledger
unfolding observe_usage
settle_held c a root usage estimated s = do
  b ← or_raise (budget_of s root a.budget_unit) (runtime_conflict budget_ledger_missing)
  guard (leb a.budget_bound b.reserved) integrity_error
  ok (
      observe_usage c a root usage (spend a.budget_bound usage b) (
        adjust_budget root a.budget_unit (spend a.budget_bound usage) (record s {
          attempts = update attempt_key a.attempt_id (record_usage usage estimated) s.attempts;
        })))

-- `_settle`: `a` is the attempt's row as it was read, joined with its root
unfoldable pub settle : Clock → Attempt → ℕ → Option ℤ → Ledger → Result Ledger
unfolding settle_held
settle c a root usage s =
    if a.budget_held
    then (do n ← charged a usage; settle_held c a root n (is_none usage) s)
    else ok s
