-- ===== src/Ledger/Progress/Histories.antt =====
-- Every history of calls of store.py moves the rows of the ledger forward.
use mta_runtime_intramind.Base.{ℕ, List, [], ◌∷◌, Option, none, some, Result, ok, err, OnOk}
use mta_runtime_intramind.Ledger.State.{Ledger, Clock}
use mta_runtime_intramind.Ledger.Attempts.{Reservation}
use mta_runtime_intramind.Ledger.History.{
  Call, creates, submits, binds, reserves, marks_send, beats, finishes_compute, commits, loses,
  fails, cancels, finishes_run, perform, committed, run, ledger_of,
}
use mta_runtime_intramind.Ledger.Progress.Steps.{Moves, Moves-refl, Moves-trans}
use mta_runtime_intramind.Ledger.Progress.Owners.{
  mark_send-Moves, heartbeat-Moves, compute_finished-Moves, commit_result-Moves, unknown-Moves,
  fail-Moves,
}
use mta_runtime_intramind.Ledger.Progress.Roots.{
  create_root-Moves, submit_operation-Moves, bind_completion-Moves, cancel-Moves, finish_run-Moves,
}
use mta_runtime_intramind.Ledger.Progress.Grants.{Reserved, reserve_next-Reserved}

Reserved-Moves :
    (c : Clock) (lease : ℕ) (s : Ledger) (m : Result (Ledger × Option Reservation))
    → OnOk (Reserved c lease s) m
    → OnOk (Moves s) (ledger_of m)
Reserved-Moves c lease s (ok (t, none)) h = h
Reserved-Moves c lease s (ok (t, some res)) h = h.0
Reserved-Moves c lease s (err e) h = tt

paired-Moves :
    {A : Type 0} (s : Ledger) (m : Result (Ledger × A))
    → OnOk (λ x. Moves s x.0) m
    → OnOk (Moves s) (ledger_of m)
paired-Moves s (ok (t, a)) h = h
paired-Moves s (err e) h = tt

perform-Moves :
    (sha256 : ℕ → List ℕ) (c : Clock) (call : Call) (s : Ledger)
    → OnOk (Moves s) (perform sha256 c call s)
unfolding perform
perform-Moves sha256 c (creates spec) s = create_root-Moves c s spec
perform-Moves sha256 c (submits at spec) s = submit_operation-Moves c s sha256 at spec
perform-Moves sha256 c (binds operation tenant binding token) s =
    bind_completion-Moves c s operation tenant binding token
perform-Moves sha256 c (reserves pool draw) s =
    Reserved-Moves c draw.lease s _ (reserve_next-Reserved c pool draw s)
perform-Moves sha256 c (marks_send res) s = mark_send-Moves c res s
perform-Moves sha256 c (beats lease res) s = paired-Moves s _ (heartbeat-Moves c res s lease)
perform-Moves sha256 c (finishes_compute res) s = compute_finished-Moves c res s
perform-Moves sha256 c (commits res artifact usage attachments) s =
    commit_result-Moves c res s sha256 artifact usage attachments
perform-Moves sha256 c (loses res reason) s = unknown-Moves c res s reason
perform-Moves sha256 c (fails res reason not_sent retry delay) s =
    fail-Moves c res s reason not_sent retry delay
perform-Moves sha256 c (cancels root tenant) s = cancel-Moves c s root tenant
perform-Moves sha256 c (finishes_run at root tenant state result reason) s =
    finish_run-Moves c s sha256 at root tenant state result reason

committed-Moves : (s : Ledger) (m : Result Ledger) → OnOk (Moves s) m → Moves s (committed s m)
committed-Moves s (ok t) h = h
committed-Moves s (err e) h = Moves-refl s

-- Whatever the callers do, one transaction after the other and in whatever order, no root, operation or
-- attempt is lost and each only moves on: a root or an operation that has ended keeps its state and
-- its result, an attempt that has ended keeps its state, no attempt returns to the state before its
-- send, specifications, tenants of roots, roots of operations, owners and lease epochs stay, and the
-- counted sends never fall.
pub run-Moves :
    (sha256 : ℕ → List ℕ) (calls : List (Clock × Call)) (s : Ledger) → Moves s (run sha256 calls s)
unfolding run
run-Moves sha256 [] s = Moves-refl s
run-Moves sha256 ((c, call) ∷ calls) s =
    Moves-trans (committed-Moves s (perform sha256 c call s) (perform-Moves sha256 c call s))
      (run-Moves sha256 calls (committed s (perform sha256 c call s)))
