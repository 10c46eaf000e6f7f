-- ===== src/Ledger/Resuming.antt =====
-- store.py: what undoes what: `resume_engine` after `quiesce_engine`, and `submit_run` repeated.
use mta_runtime_intramind.Base.{
  ℕ, ◌≡◌, refl, sym, subst, true, ◌==◌, decides, decides_refl, and_right, ap, ◌∙◌, Option, none,
  some, List, [], ◌∷◌, arith, ==_refl, Result, ok, err, ◌>>=◌, ◌>>◌, guard, integrity_error, OnOk,
  OnOk-any, OnOk-eq, OnOk-bind, OnOk-guard, runtime_conflict, submission_key_conflict,
}
use mta_runtime_intramind.Contracts.Operation.{RootSpec}
use mta_runtime_intramind.Table.{find, update, update-update, find-update}
use mta_runtime_intramind.Ledger.State.{
  Ledger, Clock, Pool, healthy, RunSpec, RunSpec-discrete, Submission, start_workflow, pool_key,
}
use mta_runtime_intramind.Ledger.Events.{event}
use mta_runtime_intramind.Ledger.Runs.{create_root}
use mta_runtime_intramind.Ledger.Engine.{quiesce_engine, quiesce_row}
use mta_runtime_intramind.Ledger.Pools.{
  find_submission, submission_key, submission_identity, run_of, is_same_run, submit_new_run,
  submit_run, inflight_compute, resume_row, resume_engine,
}

decides_eq : {A : Type 0} {a b : A} (d : Dec (a ≡ b)) → decides d ≡ true → a ≡ b
decides_eq (yes e) h = e
decides_eq (no differs) h = absurd (cc)

update-same_row :
    {A : Type 0} (key : A → ℕ) (k : ℕ) (f g : A → A) (x : A) (xs : List A)
    → find key k xs ≡ some x
    → f x ≡ g x
    → update key k f xs ≡ update key k g xs
unfolding find update
update-same_row key k f g x [] e same = refl
update-same_row key k f g x (y ∷ ys) e same = ground (arith, update-same_row key k f g x ys, same)

abbrev pub to_target : Pool → Pool
to_target p = record p { target = p.spec.target }

-- An owner that quiesces a healthy pool which nobody has quiesced, and resumes it while no attempt
-- holds compute there, leaves the ledger as it was, but for the target, which is the configured one.
pub resume_engine-quiesce_engine :
    (pool epoch token : ℕ) (p : Pool) (s : Ledger)
    → find pool_key pool s.pools ≡ some p
    → p.engine_epoch ≡ epoch
    → p.health ≡ healthy
    → p.quiesce_token ≡ none
    → inflight_compute pool s ≡ 0
    → (quiesce_engine pool epoch (some token) s >>= λ t. resume_engine pool epoch (some token) t)
      ≡ ok (record s { pools = update pool_key pool to_target s.pools })
unfolding quiesce_engine resume_engine
resume_engine-quiesce_engine pool epoch token p s e same health quiet idle =
    rw
      (
        e,
        same,
        ==_refl epoch,
        quiet,
        health,
        find-update pool_key pool pool (quiesce_row token) s.pools (λ x. refl),
        ==_refl pool,
        e,
        same,
        ==_refl epoch,
        ==_refl token,
        idle,
      )
      (ap (λ ps. ok (record s { pools = ps }))
        (update-update pool_key pool (quiesce_row token) resume_row s.pools (λ x. refl)
          ∙ update-same_row pool_key pool (λ x. resume_row (quiesce_row token x)) to_target p
              s.pools e (rw (health, quiet) refl)))

-- The key is taken by a submission of this identity, and `id` is its run.
record IsTaken (tenant key digest : ℕ) (identity : RunSpec) (x : Ledger × ℕ) : Type 0 where
  pub taken : Submission
  pub found : find_submission tenant key x.0.submissions ≡ some taken
  pub same_digest : taken.input_digest ≡ digest
  pub same_identity : submission_identity taken.spec ≡ identity
  pub same_run : taken.run_id ≡ x.1

module _ (c : Clock) (root : RootSpec) (key digest : ℕ) (spec : RunSpec) (s : Ledger) where
  abbrev Taken : Ledger × ℕ → Type 0
  Taken x = IsTaken root.tenant_id key digest (submission_identity spec) x

  submit_new_run-IsTaken : OnOk Taken (submit_new_run c root key digest spec s)
  unfolding submit_new_run event find_submission
  submit_new_run-IsTaken =
      OnOk-bind (λ t. Unit {0}) Taken (create_root c root s) _ (OnOk-any (create_root c root s))
        λ t _. listed t (find submission_key root.root_id t.submissions)
    where
      listed :
          (t : Ledger) (o : Option Submission)
          → OnOk Taken (elim o as (λ x. Result (Ledger × ℕ)) [
            | some other ↦ err integrity_error
            | none ↦ ok (
              event c
                  (start_workflow root.root_id)
                  root.root_id
                  (record t { submissions = run_of root key digest spec ∷ t.submissions }),
              root.root_id,
            )
          ])
      listed t (some other) = tt
      listed t none = record {
        taken = run_of root key digest spec;
        found = rw (==_refl root.tenant_id, ==_refl key) refl;
        same_digest = refl;
        same_identity = refl;
        same_run = refl;
      }

  submit_run-IsTaken : OnOk Taken (submit_run c root key digest spec s)
  unfolding submit_run
  submit_run-IsTaken = known (find_submission root.tenant_id key s.submissions) refl
    where
      known :
          (o : Option Submission)
          → find_submission root.tenant_id key s.submissions ≡ o
          → OnOk Taken (elim o as (λ x. Result (Ledger × ℕ)) [
            | none ↦ submit_new_run c root key digest spec s
            | some old ↦ (do
              guard (is_same_run digest spec old) (runtime_conflict submission_key_conflict)
              ok (s, old.run_id))
          ])
      known none e = submit_new_run-IsTaken
      known (some old) e = OnOk-guard Taken (is_same_run digest spec old) _ _ λ h. record {
        taken = old;
        found = e;
        same_digest = ground (arith, h);
        same_identity = decides_eq _ (and_right (old.input_digest == digest) _ h);
        same_run = refl;
      }

-- A submission that was accepted is accepted again under its key with the same run and without a
-- change to the ledger, also with another configuration, another deadline or budget, and later.
pub submit_run-again :
    (c d : Clock) (root other : RootSpec) (key digest : ℕ) (spec again : RunSpec) (s t : Ledger)
    (id : ℕ)
    → submit_run c root key digest spec s ≡ ok (t, id)
    → other.tenant_id ≡ root.tenant_id
    → submission_identity again ≡ submission_identity spec
    → submit_run d other key digest again t ≡ ok (t, id)
unfolding submit_run
submit_run-again c d root other key digest spec again s t id accepted tenant identity =
    let taken =
      OnOk-eq (IsTaken root.tenant_id key digest (submission_identity spec))
        (submit_run c root key digest spec s) (t, id) (submit_run-IsTaken c root key digest spec s)
        accepted in
    let found : find_submission other.tenant_id key t.submissions ≡ some taken.taken =
      ap (λ k. find_submission k key t.submissions) tenant ∙ taken.found in
    let same_spec : decides
          (RunSpec-discrete (submission_identity taken.taken.spec) (submission_identity again))
        ≡ true =
      subst (λ x. decides (RunSpec-discrete x (submission_identity again)) ≡ true)
        (identity ∙ sym taken.same_identity) (decides_refl _) in
    let same : is_same_run digest again taken.taken ≡ true =
      rw (taken.same_digest, ==_refl digest) same_spec in
    rw (submit_run, found, same) (ap (λ r. ok (t, r)) taken.same_run)
