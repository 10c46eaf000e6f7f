-- ===== src/Ledger/History.antt =====
-- The calls that the other processes make of the store, each in its own transaction: what raises is
-- rolled back. A history is a list of calls of which each commits before the next begins.
use mta_runtime_intramind.Base.{ℕ, Bool, Option, List, [], ◌∷◌, Result, ok, err, ◌>>=◌}
use mta_runtime_intramind.Base.Int.{ℤ}
use mta_runtime_intramind.Contracts.Operation.{Artifact, RootSpec, OperationSpec}
use mta_runtime_intramind.Ledger.State.{Ledger, Clock, Group, Pool, Owner, Reason, RootState}
use mta_runtime_intramind.Ledger.Attempts.{
  Reservation, mark_send, heartbeat, compute_finished, unknown,
}
use mta_runtime_intramind.Ledger.Reserve.{Draw, reserve_next}
use mta_runtime_intramind.Ledger.Results.{commit_result, fail}
use mta_runtime_intramind.Ledger.Runs.{
  create_root, submit_operation, bind_completion, cancel, finish_run,
}

pub data Call : Type 0 where
  creates : RootSpec → Call
  -- the second reading of the database clock, and the specification
  submits : ℕ → OperationSpec → Call
  -- operation, tenant, binding and task token
  binds : ℕ → ℕ → ℕ → ℕ → Call
  reserves : ℕ → Draw → Call
  marks_send : Reservation → Call
  -- the lease that is extended
  beats : ℕ → Reservation → Call
  finishes_compute : Reservation → Call
  commits : Reservation → Artifact → Option ℤ → List Artifact → Call
  loses : Reservation → Reason → Call
  -- not_sent, retry and delay
  fails : Reservation → Reason → Bool → Bool → ℕ → Call
  cancels : ℕ → ℕ → Call
  -- the clock at the transition, root and tenant
  finishes_run : ℕ → ℕ → ℕ → RootState → Option Artifact → Option Reason → Call

-- The ledger of an operation that also returns a value.
abbrev pub ledger_of : {A : Type 0} → Result (Ledger × A) → Result Ledger
ledger_of m = m >>= λ x. ok x.0

unfoldable pub perform : (ℕ → List ℕ) → Clock → Call → Ledger → Result Ledger
perform sha256 c (creates spec) s = create_root c spec s
perform sha256 c (submits at spec) s = submit_operation sha256 c at spec s
perform sha256 c (binds operation tenant binding token) s =
    bind_completion c operation tenant binding token s
perform sha256 c (reserves pool draw) s = ledger_of (reserve_next c pool draw s)
perform sha256 c (marks_send res) s = mark_send c res s
perform sha256 c (beats lease res) s = ledger_of (heartbeat c lease res s)
perform sha256 c (finishes_compute res) s = compute_finished c res s
perform sha256 c (commits res artifact usage attachments) s =
    commit_result sha256 c res artifact usage attachments s
perform sha256 c (loses res reason) s = unknown c res reason s
perform sha256 c (fails res reason not_sent retry delay) s =
    fail c res reason not_sent retry delay s
perform sha256 c (cancels root tenant) s = cancel c root tenant s
perform sha256 c (finishes_run at root tenant state result reason) s =
    finish_run sha256 c at root tenant state result reason s

-- A transaction that raises leaves the ledger as it was.
abbrev pub committed : Ledger → Result Ledger → Ledger
committed s (ok t) = t
committed s (err e) = s

unfoldable pub run : (ℕ → List ℕ) → List (Clock × Call) → Ledger → Ledger
run sha256 [] s = s
run sha256 ((c, call) ∷ calls) s = run sha256 calls (committed s (perform sha256 c call s))

-- The ledger of an installation whose pools are configured and that has no work yet.
unfoldable pub installed : ℕ → ℕ → List Group → List Pool → List Owner → Ledger
installed max_roots max_pending groups pools owners = record {
  max_roots = max_roots;
  max_pending = max_pending;
  roots = [];
  budgets = [];
  groups = groups;
  pools = pools;
  operations = [];
  attempts = [];
  artifacts = [];
  outbox = [];
  bindings = [];
  owners = owners;
  controller_updates = [];
  submissions = [];
  direct_attempts = [];
  direct_waiters = [];
}
