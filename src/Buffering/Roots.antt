-- ===== src/Buffering/Roots.antt =====
-- store.py as buffering.py sees it: the roots of the batches.
use mta_runtime_intramind.Base.{
  ℕ, ◌≡◌, refl, sym, ap, subst, ◌∙◌, Bool, true, false, ◌||◌, Option, none, some, List, Bool-cases,
  Option-cases, inl, inr,
}
use mta_runtime_intramind.Table.{find}
use mta_runtime_intramind.Ledger.State.{Ledger, Clock, Root, root_key, is_running}
use mta_runtime_intramind.Ledger.History.{Call, run}
use mta_runtime_intramind.Ledger.Progress.Steps.{Moves}
use mta_runtime_intramind.Ledger.Progress.Histories.{run-Moves}
use mta_runtime_intramind.Buffering.State.{root_runs, no_root}
use mta_runtime_intramind.Buffering.Exclusive.{KeepsEnded}

true-false : true ≡ false → ⊥
true-false e = cc

abbrev is_open : Option Root → Bool
is_open o =
    (elim o as (λ x. Bool) [ none ↦ false | some r ↦ is_running r.state ])
    || (elim o as (λ x. Bool) [ none ↦ true | some r ↦ false ])

-- Where the rows only move on, what has ended stays ended.
Moves-KeepsEnded : (s t : Ledger) → Moves s t → KeepsEnded s.roots t.roots
Moves-KeepsEnded s t moves id open_later = elim (Option-cases (find root_key id s.roots)) [
  | inl e ↦ subst (λ o. is_open o ≡ true) (sym e) refl
  | inr (r, e) ↦ elim (Bool-cases (is_running r.state)) [
    | inl runs ↦ subst (λ o. is_open o ≡ true) (sym e) (rw (runs) refl)
    | inr ended ↦
        let (q, f, step) = moves.roots.row id r e in
        let closed : (root_runs t.roots id || no_root t.roots id) ≡ false =
          subst (λ o. is_open o ≡ false) (sym f)
            (rw (ap is_running (step.final ended).0, ended) refl) in
        absurd (true-false (sym open_later ∙ closed))
  ]
]

pub run-KeepsEnded :
    (sha256 : ℕ → List ℕ) (calls : List (Clock × Call)) (s : Ledger)
    → KeepsEnded s.roots (run sha256 calls s).roots
run-KeepsEnded sha256 calls s = Moves-KeepsEnded s (run sha256 calls s) (run-Moves sha256 calls s)
