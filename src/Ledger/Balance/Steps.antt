-- ===== src/Ledger/Balance/Steps.antt =====
-- The books of every ledger that any sequence of transactions reaches.
use mta_runtime_intramind.Base.{
  ℕ, refl, not, ◌&&◌, Option, none, some, List, [], ◌∷◌, ◌==◌, zero, suc, ltb, Result, ok, err, ◌+◌,
  guard, ◌>>◌, runtime_conflict, owner_belongs_to_other, submission_key_conflict, integrity_error,
  OnOk, OnOk-any, OnOk-map, OnOk-bind, OnOk-if, OnOk-guard, OnOk-raise_if, OnOk-or_raise,
}
use mta_runtime_intramind.Base.Int.{ℤ, pos, negsuc}
use mta_runtime_intramind.Contracts.Operation.{RootSpec}
use mta_runtime_intramind.Contracts.Pool.{PoolSpec}
use mta_runtime_intramind.Table.{find, update}
use mta_runtime_intramind.Ledger.State.{
  Ledger, Clock, RunSpec, Submission, Owner, start_workflow, pool_key, owner_key,
}
use mta_runtime_intramind.Ledger.Events.{event}
use mta_runtime_intramind.Ledger.Attempts.{names}
use mta_runtime_intramind.Ledger.Reserve.{is_healthy}
use mta_runtime_intramind.Ledger.Runs.{create_root}
use mta_runtime_intramind.Ledger.Engine.{
  register_owner, heartbeat_owner, extend_owner, quiesce_engine, other_token, read_envelope,
  write_target, update_target,
}
use mta_runtime_intramind.Ledger.Pools.{
  find_submission, submission_key, run_of, is_same_run, submit_new_run, submit_run, configure_pool,
  changes_pool, inflight_held, resume_engine, is_degraded, is_quiesced, inflight_compute,
}
use mta_runtime_intramind.Ledger.Stopping.{confirm_epoch_stopped}
use mta_runtime_intramind.Ledger.Lost.{settle_idle_unknown, settle_lost}
use mta_runtime_intramind.Ledger.Reconcile.{reconcile_rows}
use mta_runtime_intramind.Ledger.History.{committed}
use mta_runtime_intramind.Ledger.Steps.{
  Step, calls, submits_run, configures, quiesces, resumes, retargets, registers, extends,
  confirms_stop, settles_idle, settles_lost, reconciles, take_step, take_steps,
}
use mta_runtime_intramind.Ledger.Balance.Invariant.{IsConsistent}
use mta_runtime_intramind.Ledger.Balance.Frame.{Frame, Frame-refl, Frame-trans, Frame-IsConsistent}
use mta_runtime_intramind.Ledger.Balance.Quiet.{event-Frame}
use mta_runtime_intramind.Ledger.Balance.Opening.{create_root-IsConsistent}
use mta_runtime_intramind.Ledger.Balance.Stopping.{aside-Frame}
use mta_runtime_intramind.Ledger.Balance.Stopped.{
  confirm_epoch_stopped-IsStopped, settle_idle_unknown-IsConsistent, settle_lost-IsConsistent,
}
use mta_runtime_intramind.Ledger.Balance.Reconciling.{reconcile_rows-IsConsistent}
use mta_runtime_intramind.Ledger.Balance.Histories.{
  perform-IsConsistent, committed-IsConsistent, framed, ledger_of-OnOk,
}

register_owner-Frame :
    (c : Clock) (lease id boot : ℕ) (s : Ledger) → OnOk (Frame s) (register_owner c lease id boot s)
unfolding register_owner
register_owner-Frame c lease id boot s = known (find owner_key id s.owners)
  where
    known :
        (o : Option Owner)
        → OnOk (Frame s) (elim o as (λ x. Result Ledger) [
          | none ↦ ok (record s {
            owners =
                record {
                  owner_id = id;
                  boot_generation = boot;
                  lease_expires_at = c.transaction + lease;
                }
                ∷ s.owners;
          })
          | some old ↦ (do
            guard (old.boot_generation == boot) (runtime_conflict owner_belongs_to_other)
            ok (record s { owners = update owner_key id (extend_owner c lease) s.owners }))
        ])
    known none = aside-Frame s _ refl refl refl refl
    known (some old) =
        OnOk-guard (Frame s) (old.boot_generation == boot) _ _
          λ _. aside-Frame s _ refl refl refl refl

heartbeat_owner-Frame :
    (c : Clock) (lease id boot : ℕ) (s : Ledger)
    → OnOk (Frame s) (heartbeat_owner c lease id boot s)
unfolding heartbeat_owner
heartbeat_owner-Frame c lease id boot s =
    OnOk-or_raise (Frame s) (find owner_key id s.owners) _ _ λ old _.
      OnOk-guard (Frame s) (old.boot_generation == boot) _ _
        λ _. aside-Frame s _ refl refl refl refl

quiesce_engine-Frame :
    (pool epoch : ℕ) (token : Option ℕ) (s : Ledger)
    → OnOk (Frame s) (quiesce_engine pool epoch token s)
unfolding quiesce_engine
quiesce_engine-Frame pool epoch none s = tt
quiesce_engine-Frame pool epoch (some token) s =
    OnOk-or_raise (Frame s) (find pool_key pool s.pools) _ _ λ p _.
      OnOk-guard (Frame s) (p.engine_epoch == epoch) _ _ λ _.
        OnOk-raise_if (Frame s) (other_token p.quiesce_token token) _ _ λ _.
          OnOk-if (Frame s) (not (is_healthy p.health) && names p.quiesce_token token) _ _
            (λ _. Frame-refl s)
            λ _.
              OnOk-guard (Frame s) (is_healthy p.health) _ _
                λ _. aside-Frame s _ refl refl refl refl

resume_engine-Frame :
    (pool epoch : ℕ) (token : Option ℕ) (s : Ledger)
    → OnOk (Frame s) (resume_engine pool epoch token s)
unfolding resume_engine
resume_engine-Frame pool epoch none s = tt
resume_engine-Frame pool epoch (some token) s =
    OnOk-or_raise (Frame s) (find pool_key pool s.pools) _ _ λ p _.
      OnOk-guard (Frame s) (p.engine_epoch == epoch) _ _ λ _.
        OnOk-if (Frame s) (is_healthy p.health && not (is_quiesced p.quiesce_token)) _ _
          (λ _. Frame-refl s)
          λ _. OnOk-guard (Frame s) (is_degraded p.health && names p.quiesce_token token) _ _ λ _.
            OnOk-raise_if (Frame s) (ltb 0 (inflight_compute pool s)) _ _
              λ _. aside-Frame s _ refl refl refl refl

update_target-Frame :
    (pool : ℕ) (target : ℤ) (version reason : ℕ) (s : Ledger)
    → OnOk (Frame s) (update_target pool target version reason s)
unfolding update_target write_target
update_target-Frame pool target version reason s =
    OnOk-bind (λ n. Unit {0}) (Frame s) (read_envelope pool target version s) _
      (OnOk-any (read_envelope pool target version s)) λ n _. aside-Frame s _ refl refl refl refl

configure_pool-Frame :
    (spec : PoolSpec) (ceiling : ℤ) (s : Ledger) → OnOk (Frame s) (configure_pool spec ceiling s)
unfolding configure_pool
configure_pool-Frame spec (negsuc n) s = tt
configure_pool-Frame spec (pos zero) s = tt
configure_pool-Frame spec (pos (suc n)) s =
    OnOk-raise_if (Frame s)
      (changes_pool spec (find pool_key spec.pool_id s.pools)
        && ltb 0 (inflight_held spec.pool_id s))
      _ _ λ _. aside-Frame s _ refl refl refl refl

module _ (c : Clock) (root : RootSpec) (key digest : ℕ) (spec : RunSpec) (s : Ledger)
    (v : IsConsistent s) where
  abbrev Q : Ledger × ℕ → Type 0
  Q x = IsConsistent x.0

  submit_new_run-IsConsistent : OnOk Q (submit_new_run c root key digest spec s)
  unfolding submit_new_run
  submit_new_run-IsConsistent =
      OnOk-bind IsConsistent Q (create_root c root s) _ (create_root-IsConsistent c root s v)
        λ t w. listed t w (find submission_key root.root_id t.submissions)
    where
      listed :
          (t : Ledger)
          → IsConsistent t
          → (o : Option Submission)
          → OnOk Q (elim o as (λ x. Result (Ledger × ℕ)) [
            | some other ↦ err integrity_error
            | none ↦ ok (
              event c
                  (start_workflow root.root_id)
                  root.root_id
                  (record t { submissions = run_of root key digest spec ∷ t.submissions }),
              root.root_id,
            )
          ])
      listed t w (some other) = tt
      listed t w none =
          Frame-IsConsistent
            (Frame-trans
              (aside-Frame t
                (record t { submissions = run_of root key digest spec ∷ t.submissions }) refl refl
                refl refl)
              (event-Frame c (start_workflow root.root_id) root.root_id _))
            w

  submit_run-IsConsistent : OnOk Q (submit_run c root key digest spec s)
  unfolding submit_run
  submit_run-IsConsistent = known (find_submission root.tenant_id key s.submissions)
    where
      known :
          (o : Option Submission)
          → OnOk Q (elim o as (λ x. Result (Ledger × ℕ)) [
            | none ↦ submit_new_run c root key digest spec s
            | some old ↦ (do
              guard (is_same_run digest spec old) (runtime_conflict submission_key_conflict)
              ok (s, old.run_id))
          ])
      known none = submit_new_run-IsConsistent
      known (some old) = OnOk-guard Q (is_same_run digest spec old) _ _ λ _. v

take_step-IsConsistent :
    (sha256 : ℕ → List ℕ) (c : Clock) (step : Step) (s : Ledger)
    → IsConsistent s
    → OnOk IsConsistent (take_step sha256 c step s)
unfolding take_step
take_step-IsConsistent sha256 c (calls call) s v = perform-IsConsistent sha256 c call s v
take_step-IsConsistent sha256 c (submits_run root key digest spec) s v =
    ledger_of-OnOk (submit_run c root key digest spec s)
      (submit_run-IsConsistent c root key digest spec s v)
take_step-IsConsistent sha256 c (configures spec ceiling) s v =
    framed s _ v (configure_pool-Frame spec ceiling s)
take_step-IsConsistent sha256 c (quiesces pool epoch token) s v =
    framed s _ v (quiesce_engine-Frame pool epoch token s)
take_step-IsConsistent sha256 c (resumes pool epoch token) s v =
    framed s _ v (resume_engine-Frame pool epoch token s)
take_step-IsConsistent sha256 c (retargets pool target version reason) s v =
    framed s _ v (update_target-Frame pool target version reason s)
take_step-IsConsistent sha256 c (registers lease id boot) s v =
    framed s _ v (register_owner-Frame c lease id boot s)
take_step-IsConsistent sha256 c (extends lease id boot) s v =
    framed s _ v (heartbeat_owner-Frame c lease id boot s)
take_step-IsConsistent sha256 c (confirms_stop pool epoch evidence recover note) s v =
    ledger_of-OnOk (confirm_epoch_stopped c pool epoch evidence recover note s) (
      OnOk-map _ (λ x. IsConsistent x.0) _ (λ x stopped. stopped.0)
        (confirm_epoch_stopped-IsStopped c recover pool epoch evidence note s v))
take_step-IsConsistent sha256 c (settles_idle pool epoch since ids) s v =
    ledger_of-OnOk (settle_idle_unknown c pool epoch since ids s)
      (settle_idle_unknown-IsConsistent c pool epoch since ids s v)
take_step-IsConsistent sha256 c (settles_lost locked id) s v =
    ledger_of-OnOk (settle_lost c locked id s) (settle_lost-IsConsistent c locked id s v)
take_step-IsConsistent sha256 c reconciles s v =
    ledger_of-OnOk (reconcile_rows c s) (reconcile_rows-IsConsistent c s v)

-- Whatever transactions the ledger sees, and in whatever order they commit, the recovery after lost
-- executors and stopped engines and the administration of pools included, a consistent ledger stays
-- consistent: every budget's `reserved` is the sum of the bounds that its unsettled attempts hold
-- and `spent` the sum of the usage of its attempts, what has ended holds neither compute nor budget,
-- and compute is held only with budget.
pub take_steps-IsConsistent :
    (sha256 : ℕ → List ℕ) (steps : List (Clock × Step)) (s : Ledger)
    → IsConsistent s
    → IsConsistent (take_steps sha256 steps s)
unfolding take_steps
take_steps-IsConsistent sha256 [] s v = v
take_steps-IsConsistent sha256 ((c, step) ∷ steps) s v =
    take_steps-IsConsistent sha256 steps (committed s (take_step sha256 c step s)) (
      committed-IsConsistent s (take_step sha256 c step s) v
        (take_step-IsConsistent sha256 c step s v))
