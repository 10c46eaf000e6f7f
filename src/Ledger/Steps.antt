-- ===== src/Ledger/Steps.antt =====
-- Every transaction that changes the ledger: the calls of Ledger/History, the submissions of runs,
-- the operations on pools and owners, and the recovery. The lost results are settled one at a time.
use mta_runtime_intramind.Base.{ℕ, Bool, Option, List, [], ◌∷◌, Result}
use mta_runtime_intramind.Base.Int.{ℤ}
use mta_runtime_intramind.Contracts.Operation.{RootSpec}
use mta_runtime_intramind.Contracts.Pool.{PoolSpec}
use mta_runtime_intramind.Ledger.State.{Ledger, Clock, RunSpec}
use mta_runtime_intramind.Ledger.Engine.{
  register_owner, heartbeat_owner, quiesce_engine, update_target,
}
use mta_runtime_intramind.Ledger.Pools.{submit_run, configure_pool, resume_engine}
use mta_runtime_intramind.Ledger.Stopping.{confirm_epoch_stopped}
use mta_runtime_intramind.Ledger.Evidence.{StopEvidence}
use mta_runtime_intramind.Ledger.Lost.{settle_idle_unknown, settle_lost}
use mta_runtime_intramind.Ledger.Reconcile.{reconcile_rows}
use mta_runtime_intramind.Ledger.History.{Call, perform, committed, ledger_of}

pub data Step : Type 0 where
  calls : Call → Step
  -- root, key, digest of the input, and specification
  submits_run : RootSpec → ℕ → ℕ → RunSpec → Step
  configures : PoolSpec → ℤ → Step
  -- pool, epoch and token
  quiesces resumes : ℕ → ℕ → Option ℕ → Step
  -- pool, target, version and reason
  retargets : ℕ → ℤ → ℕ → ℕ → Step
  -- lease, owner and boot generation
  registers extends : ℕ → ℕ → ℕ → Step
  -- pool, epoch, evidence, whether to recover, and the reason that is noted
  confirms_stop : ℕ → ℕ → StopEvidence → Bool → ℕ → Step
  -- pool, epoch, the first probe's instant, and the attempts that were probed
  settles_idle : ℕ → ℕ → ℕ → List ℕ → Step
  -- whether another transaction has locked the row, and the attempt
  settles_lost : Bool → ℕ → Step
  reconciles : Step

unfoldable pub take_step : (ℕ → List ℕ) → Clock → Step → Ledger → Result Ledger
unfolding perform
take_step sha256 c (calls call) s = perform sha256 c call s
take_step sha256 c (submits_run root key digest spec) s =
    ledger_of (submit_run c root key digest spec s)
take_step sha256 c (configures spec ceiling) s = configure_pool spec ceiling s
take_step sha256 c (quiesces pool epoch token) s = quiesce_engine pool epoch token s
take_step sha256 c (resumes pool epoch token) s = resume_engine pool epoch token s
take_step sha256 c (retargets pool target version reason) s =
    update_target pool target version reason s
take_step sha256 c (registers lease id boot) s = register_owner c lease id boot s
take_step sha256 c (extends lease id boot) s = heartbeat_owner c lease id boot s
take_step sha256 c (confirms_stop pool epoch evidence recover note) s =
    ledger_of (confirm_epoch_stopped c pool epoch evidence recover note s)
take_step sha256 c (settles_idle pool epoch since ids) s =
    ledger_of (settle_idle_unknown c pool epoch since ids s)
take_step sha256 c (settles_lost locked id) s = ledger_of (settle_lost c locked id s)
take_step sha256 c reconciles s = ledger_of (reconcile_rows c s)

unfoldable pub take_steps : (ℕ → List ℕ) → List (Clock × Step) → Ledger → Ledger
unfolding take_step
take_steps sha256 [] s = s
take_steps sha256 ((c, step) ∷ steps) s =
    take_steps sha256 steps (committed s (take_step sha256 c step s))
