-- ===== src/Ledger/Balance/Histories.antt =====
-- The books of every ledger that the store's calls can reach.
use mta_runtime_intramind.Base.{ℕ, ◌≡◌, List, [], ◌∷◌, some, Result, ok, err, OnOk, ◌>>=◌}
use mta_runtime_intramind.Contracts.Operation.{
  BudgetUnit, tokens, speech_characters, embedding_characters,
}
use mta_runtime_intramind.Table.{find}
use mta_runtime_intramind.Ledger.State.{Ledger, Clock, Group, Pool, Owner, Budget}
use mta_runtime_intramind.Ledger.Budgets.{budget_of, find_resource}
use mta_runtime_intramind.Ledger.Reserve.{reserve_next}
use mta_runtime_intramind.Ledger.Attempts.{heartbeat}
use mta_runtime_intramind.Ledger.History.{
  Call, creates, submits, binds, reserves, marks_send, beats, finishes_compute, commits, loses,
  fails, cancels, finishes_run, perform, committed, run, installed,
}
use mta_runtime_intramind.Ledger.Balance.Invariant.{IsConsistent}
use mta_runtime_intramind.Ledger.Balance.Frame.{Frame, Frame-IsConsistent}
use mta_runtime_intramind.Ledger.Balance.Sending.{
  mark_send-IsConsistent, heartbeat-IsConsistent, compute_finished-IsConsistent,
  unknown-IsConsistent,
}
use mta_runtime_intramind.Ledger.Balance.Ending.{commit_result-IsConsistent, fail-IsConsistent}
use mta_runtime_intramind.Ledger.Balance.Opening.{create_root-IsConsistent}
use mta_runtime_intramind.Ledger.Balance.Submitting.{submit_operation-IsConsistent}
use mta_runtime_intramind.Ledger.Balance.Closing.{
  cancel-Frame, finish_run-Frame, bind_completion-Frame,
}
use mta_runtime_intramind.Ledger.Balance.Reserving.{reserve_next-IsConsistent}

pub framed :
    (s : Ledger) (m : Result Ledger) → IsConsistent s → OnOk (Frame s) m → OnOk IsConsistent m
framed s (ok t) v f = Frame-IsConsistent f v
framed s (err e) v f = tt

pub ledger_of-OnOk :
    {A : Type 0} (m : Result (Ledger × A))
    → OnOk (λ x. IsConsistent x.0) m
    → OnOk IsConsistent (m >>= λ x. ok x.0)
ledger_of-OnOk (ok x) h = h
ledger_of-OnOk (err e) h = tt

pub perform-IsConsistent :
    (sha256 : ℕ → List ℕ) (c : Clock) (call : Call) (s : Ledger)
    → IsConsistent s
    → OnOk IsConsistent (perform sha256 c call s)
unfolding perform
perform-IsConsistent sha256 c (creates spec) s v = create_root-IsConsistent c spec s v
perform-IsConsistent sha256 c (submits at spec) s v =
    submit_operation-IsConsistent sha256 c at spec s v
perform-IsConsistent sha256 c (binds operation tenant binding token) s v =
    framed s _ v (bind_completion-Frame c operation tenant binding token s)
perform-IsConsistent sha256 c (reserves pool draw) s v =
    ledger_of-OnOk (reserve_next c pool draw s) (reserve_next-IsConsistent c pool draw s v)
perform-IsConsistent sha256 c (marks_send res) s v = mark_send-IsConsistent c res s v
perform-IsConsistent sha256 c (beats lease res) s v =
    ledger_of-OnOk (heartbeat c lease res s) (heartbeat-IsConsistent c res s v lease)
perform-IsConsistent sha256 c (finishes_compute res) s v = compute_finished-IsConsistent c res s v
perform-IsConsistent sha256 c (commits res artifact usage attachments) s v =
    commit_result-IsConsistent c res s v sha256 artifact usage attachments
perform-IsConsistent sha256 c (loses res reason) s v = unknown-IsConsistent c res s v reason
perform-IsConsistent sha256 c (fails res reason not_sent retry delay) s v =
    fail-IsConsistent c res s v reason not_sent retry delay
perform-IsConsistent sha256 c (cancels root tenant) s v =
    framed s _ v (cancel-Frame c root tenant s)
perform-IsConsistent sha256 c (finishes_run at root tenant state result reason) s v =
    framed s _ v (finish_run-Frame sha256 c at root tenant state result reason s)

pub committed-IsConsistent :
    (s : Ledger) (m : Result Ledger)
    → IsConsistent s
    → OnOk IsConsistent m
    → IsConsistent (committed s m)
committed-IsConsistent s (ok t) v h = h
committed-IsConsistent s (err e) v h = v

-- Whatever the callers do, one transaction after the other and in whatever order, a consistent ledger
-- stays consistent: every budget's `reserved` is the sum of the bounds that its unsettled attempts
-- hold and `spent` the sum of the usage of its attempts; an attempt that has ended holds neither
-- compute nor budget, compute is held only with budget, usage is recorded only as an attempt ends,
-- and an attempt is priced by its operation's specification.
pub run-IsConsistent :
    (sha256 : ℕ → List ℕ) (calls : List (Clock × Call)) (s : Ledger)
    → IsConsistent s
    → IsConsistent (run sha256 calls s)
unfolding run
run-IsConsistent sha256 [] s v = v
run-IsConsistent sha256 ((c, call) ∷ calls) s v =
    run-IsConsistent sha256 calls (committed s (perform sha256 c call s)) (
      committed-IsConsistent s (perform sha256 c call s) v (perform-IsConsistent sha256 c call s v))

no_budget :
    (max_roots max_pending : ℕ) (groups : List Group) (pools : List Pool) (owners : List Owner)
    (root : ℕ) (unit : BudgetUnit) (b : Budget)
    → budget_of (installed max_roots max_pending groups pools owners) root unit ≡ some b
    → ⊥
unfolding installed budget_of find find_resource
no_budget max_roots max_pending groups pools owners root tokens b e = cc
no_budget max_roots max_pending groups pools owners root speech_characters b e = cc
no_budget max_roots max_pending groups pools owners root embedding_characters b e = cc

-- A fresh installation is consistent.
pub installed-IsConsistent :
    (max_roots max_pending : ℕ) (groups : List Group) (pools : List Pool) (owners : List Owner)
    → IsConsistent (installed max_roots max_pending groups pools owners)
unfolding installed find
installed-IsConsistent max_roots max_pending groups pools owners = record {
  balanced = record {
    held =
        λ root unit b e. absurd (no_budget max_roots max_pending groups pools owners root unit b e);
    used =
        λ root unit b e. absurd (no_budget max_roots max_pending groups pools owners root unit b e);
  };
  rows = λ id a e. absurd (cc);
  priced = λ id a e. absurd (cc);
  linked = tt;
  rooted = λ id root e. absurd (cc);
}
