-- ===== src/Ledger/Quiescence.antt =====
-- store.py: what `quiesce_engine` leaves for the calls after it.
use mta_runtime_intramind.Base.{
  ℕ, ◌≡◌, refl, Bool, true, false, not, ◌&&◌, Option, none, some, List, arith, ◌==◌, ==_refl, ok,
  OnOk, OnOk-if, OnOk-guard, OnOk-raise_if, OnOk-or_raise,
}
use mta_runtime_intramind.Table.{find, update, find-update}
use mta_runtime_intramind.Ledger.State.{Ledger, Clock, Pool, pool_key}
use mta_runtime_intramind.Ledger.Attempts.{names}
use mta_runtime_intramind.Ledger.Reserve.{Draw, is_healthy, reserve_from, reserve_next}
use mta_runtime_intramind.Ledger.Engine.{quiesce_engine, other_token, quiesce_row}

-- The pool grants nothing: whoever asks is turned away and nothing is written.
abbrev pub IsQuiet : ℕ → Ledger → Type 0
IsQuiet pool t = (c : Clock) (draw : Draw) → reserve_next c pool draw t ≡ ok (t, none)

IsQuiet-pool :
    (pool : ℕ) (t : Ledger) (p : Pool)
    → find pool_key pool t.pools ≡ some p
    → is_healthy p.health ≡ false
    → IsQuiet pool t
unfolding reserve_next reserve_from
IsQuiet-pool pool t p found ill c draw = rw (found, ill) refl

found_updated :
    (pool : ℕ) (f : Pool → Pool) (ps : List Pool) (p : Pool)
    → ((x : Pool) → (f x).pool_id ≡ x.pool_id)
    → find pool_key pool ps ≡ some p
    → find pool_key pool (update pool_key pool f ps) ≡ some (f p)
found_updated pool f ps p keeps found =
    rw (find-update pool_key pool pool f ps keeps, ==_refl pool, found) refl

left_side : (x y : Bool) → (not x && y) ≡ true → x ≡ false
left_side x y h = ground arith

-- Where `quiesce_engine` returns, even as a repetition by the same owner, `reserve_next` reserves
-- nothing more on that pool and leaves the ledger as it is.
pub quiesce_engine-IsQuiet :
    (pool epoch : ℕ) (token : Option ℕ) (s : Ledger)
    → OnOk (IsQuiet pool) (quiesce_engine pool epoch token s)
unfolding quiesce_engine
quiesce_engine-IsQuiet pool epoch none s = tt
quiesce_engine-IsQuiet pool epoch (some token) s =
    let P = IsQuiet pool in
    OnOk-or_raise P (find pool_key pool s.pools) _ _ λ p found.
      OnOk-guard P (p.engine_epoch == epoch) _ _ λ _.
        OnOk-raise_if P (other_token p.quiesce_token token) _ _ λ _.
          OnOk-if P (not (is_healthy p.health) && names p.quiesce_token token) _ _
            (λ h.
              IsQuiet-pool pool s p found
                (left_side (is_healthy p.health) (names p.quiesce_token token) h))
            λ _. OnOk-guard P (is_healthy p.health) _ _ λ _.
              IsQuiet-pool pool _ (quiesce_row token p)
                (found_updated pool (quiesce_row token) s.pools p (λ x. refl) found) refl
