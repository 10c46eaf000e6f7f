-- ===== src/Ledger/Recoveries.antt =====
-- The recovery_steps, the pools and the submissions of Ledger at work on the ledger of Ledger/Scenarios.
use mta_runtime_intramind.Base.{ℕ, ◌≡◌, refl, false, some, List, [], ◌∷◌, ok, ◌>>=◌, Result, OnOk}
use mta_runtime_intramind.Base.Int.{pos}
use mta_runtime_intramind.Table.{find, update}
use mta_runtime_intramind.Ledger.State.{Ledger, Clock, RunSpec, InputKey, other_key, pool_key}
use mta_runtime_intramind.Ledger.Pools.{submit_run, submit_new_run, find_submission, resume_engine}
use mta_runtime_intramind.Ledger.Engine.{quiesce_engine}
use mta_runtime_intramind.Ledger.Stopping.{confirm_epoch_stopped}
use mta_runtime_intramind.Ledger.Evidence.{prose}
use mta_runtime_intramind.Ledger.Reconcile.{reconcile_rows}
use mta_runtime_intramind.Ledger.Runs.{create_root}
use mta_runtime_intramind.Ledger.Events.{event, has_event, add_event}
use mta_runtime_intramind.Ledger.History.{
  Call, creates, submits, reserves, marks_send, run, installed,
}
use mta_runtime_intramind.Ledger.Steps.{
  Step, calls, configures, confirms_stop, reconciles, take_steps,
}
use mta_runtime_intramind.Ledger.Resuming.{resume_engine-quiesce_engine, submit_run-again}
use mta_runtime_intramind.Ledger.Reconciled.{IsReconciled, reconcile_rows-IsReconciled}
use mta_runtime_intramind.Ledger.Balance.Invariant.{IsConsistent}
use mta_runtime_intramind.Ledger.Balance.Histories.{run-IsConsistent, installed-IsConsistent}
use mta_runtime_intramind.Ledger.Balance.Stopped.{IsStopped, confirm_epoch_stopped-IsStopped}
use mta_runtime_intramind.Ledger.Balance.Steps.{take_steps-IsConsistent}
use mta_runtime_intramind.Ledger.Scenarios.{
  sha256, clock, root_spec, operation_spec, pool_spec, pool, group, owner, draw, empty_ledger, held,
}

abbrev late_clock : Clock
late_clock = record { transaction = 20000000; database = 20000000; process = 20000000 }

-- A root, an operation, and its attempt that has been sent.
abbrev sending : List (Clock × Call)
sending =
    (clock, creates root_spec)
    ∷ (clock, submits 1000 operation_spec)
    ∷ (clock, reserves 10 draw)
    ∷ (clock, marks_send held)
    ∷ []

abbrev sent_ledger : Ledger
sent_ledger = run sha256 sending empty_ledger

sent_ledger-IsConsistent : IsConsistent sent_ledger
sent_ledger-IsConsistent =
    run-IsConsistent sha256 sending empty_ledger
      (installed-IsConsistent 10 10 (group ∷ []) (pool ∷ []) (owner ∷ []))

abbrev recovery_steps : List (Clock × Step)
recovery_steps =
    (clock, calls (creates root_spec))
    ∷ (clock, calls (submits 1000 operation_spec))
    ∷ (clock, calls (reserves 10 draw))
    ∷ (clock, calls (marks_send held))
    ∷ (clock, confirms_stop 10 1 prose false 9)
    ∷ (late_clock, reconciles)
    ∷ (late_clock, configures pool_spec (pos 4))
    ∷ []

take_steps-IsConsistent_example : IsConsistent (take_steps sha256 recovery_steps empty_ledger)
take_steps-IsConsistent_example =
    take_steps-IsConsistent sha256 recovery_steps empty_ledger
      (installed-IsConsistent 10 10 (group ∷ []) (pool ∷ []) (owner ∷ []))

confirm_epoch_stopped-IsStopped_example :
    OnOk
      (λ x. IsConsistent x.0 × IsStopped clock false 10 1 x.0)
      (confirm_epoch_stopped clock 10 1 prose false 9 sent_ledger)
confirm_epoch_stopped-IsStopped_example =
    confirm_epoch_stopped-IsStopped clock false 10 1 prose 9 sent_ledger sent_ledger-IsConsistent

reconcile_rows-IsReconciled_example :
    OnOk (λ x. IsReconciled late_clock x.0) (reconcile_rows late_clock sent_ledger)
reconcile_rows-IsReconciled_example = reconcile_rows-IsReconciled late_clock sent_ledger

pool_found : find pool_key 10 empty_ledger.pools ≡ some pool
unfolding installed find
pool_found = refl

nothing_computes : mta_runtime_intramind.Ledger.Pools.inflight_compute 10 empty_ledger ≡ 0
unfolding installed
nothing_computes = refl

resume_engine-quiesce_engine_example :
    (quiesce_engine 10 1 (some 5) empty_ledger >>= λ t. resume_engine 10 1 (some 5) t)
    ≡ ok (record empty_ledger {
      pools = update pool_key 10 (λ p. record p { target = p.spec.target }) empty_ledger.pools;
    })
resume_engine-quiesce_engine_example =
    resume_engine-quiesce_engine 10 1 5 pool empty_ledger pool_found refl refl refl nothing_computes

abbrev run_spec : RunSpec
run_spec = record {
  input =
      record { key = InputKey.configuration; value = 1 }
      ∷ record { key = other_key 4; value = 2 }
      ∷ [];
  others = 50;
}

abbrev later_spec : RunSpec
later_spec = record {
  input =
      record { key = InputKey.configuration; value = 3 }
      ∷ record { key = other_key 4; value = 2 }
      ∷ [];
  others = 50;
}

abbrev submitted : Ledger × ℕ
submitted = elim (submit_run clock root_spec 60 70 run_spec empty_ledger) as (λ x. Ledger × ℕ) [
  | Result.ok x ↦ x
  | Result.err e ↦ (empty_ledger, 0)
]

was_submitted : submit_run clock root_spec 60 70 run_spec empty_ledger ≡ ok submitted
unfolding submit_run submit_new_run find_submission create_root installed find event add_event
    has_event
was_submitted = refl

submit_run-again_example :
    submit_run late_clock root_spec 60 70 later_spec submitted.0 ≡ ok submitted
submit_run-again_example =
    submit_run-again clock late_clock root_spec root_spec 60 70 run_spec later_spec empty_ledger
      submitted.0 submitted.1 was_submitted refl refl
