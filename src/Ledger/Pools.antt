-- ===== src/Ledger/Pools.antt =====
-- store.py: `submit_run`, `configure_pool` and `resume_engine`, and the view
-- runtime_inflight_attempts that the last two count in.
use mta_runtime_intramind.Base.{
  ℕ, ◌+◌, suc, zero, Bool, true, false, not, ◌&&◌, ◌||◌, Option, none, some, List, [], ◌∷◌, ltb,
  ◌==◌, if◌then◌else◌, decides, count, Result, ok, err, ◌>>=◌, ◌>>◌, guard, raise_if, or_raise,
  runtime_conflict, value_error, integrity_error, submission_key_conflict, invalid_ceiling,
  drain_before_reconfiguration, token_required, epoch_mismatch, quiesce_changed, unsettled_compute,
  select,
}
use mta_runtime_intramind.Base.Int.{ℤ, pos, negsuc}
use mta_runtime_intramind.Contracts.Operation.{RootSpec}
use mta_runtime_intramind.Contracts.Pool.{PoolSpec, Resource, PoolSpec-discrete}
use mta_runtime_intramind.Table.{find, update}
use mta_runtime_intramind.Ledger.State.{
  Ledger, Clock, Group, Pool, Health, healthy, degraded, start_workflow, Attempt, DirectAttempt,
  RunSpec, RunSpec-discrete, InputKey, InputEntry, Submission, pool_key,
}
use mta_runtime_intramind.Ledger.Events.{event}
use mta_runtime_intramind.Ledger.Attempts.{names}
use mta_runtime_intramind.Ledger.Reserve.{is_healthy, group_key}
use mta_runtime_intramind.Ledger.Runs.{create_root}

-- The unique key (tenant_id, submission_key).
unfoldable pub find_submission : ℕ → ℕ → List Submission → Option Submission
find_submission tenant key [] = none
find_submission tenant key (r ∷ rs) =
    if r.tenant_id == tenant && r.submission_key == key
    then some r
    else find_submission tenant key rs

abbrev pub submission_key : Submission → ℕ
submission_key r = r.run_id

abbrev pub is_configuration : InputKey → Bool
is_configuration InputKey.configuration = true
is_configuration _ = false

-- `_submission_identity`: the configuration is left out of the input.
abbrev pub submission_identity : RunSpec → RunSpec
submission_identity spec = record spec {
  input = select (λ (e : InputEntry). not (is_configuration e.key)) spec.input;
}

abbrev pub run_of : RootSpec → ℕ → ℕ → RunSpec → Submission
run_of root key digest spec = record {
  run_id = root.root_id;
  tenant_id = root.tenant_id;
  submission_key = key;
  input_digest = digest;
  spec = spec;
}

-- The two comparisons with the submission that used the key first.
abbrev pub is_same_run : ℕ → RunSpec → Submission → Bool
is_same_run digest spec old =
    old.input_digest == digest
    && decides (RunSpec-discrete (submission_identity old.spec) (submission_identity spec))

-- A submission that its key has not been used for yet.
unfoldable pub submit_new_run : Clock → RootSpec → ℕ → ℕ → RunSpec → Ledger → Result (Ledger × ℕ)
unfolding create_root event
submit_new_run c root key digest spec s = do
  s' ← create_root c root s
  elim (find submission_key root.root_id s'.submissions) [
    | some other ↦ err integrity_error
    | none ↦ ok (
      event c (start_workflow root.root_id) root.root_id
          (record s' { submissions = run_of root key digest spec ∷ s'.submissions }),
      root.root_id,
    )
  ]

-- `submit_run`, with the identity of the run
unfoldable pub submit_run : Clock → RootSpec → ℕ → ℕ → RunSpec → Ledger → Result (Ledger × ℕ)
unfolding find_submission submit_new_run
submit_run c root key digest spec s = elim (find_submission root.tenant_id key s.submissions) [
  | none ↦ submit_new_run c root key digest spec s
  | some old ↦ (do
    guard (is_same_run digest spec old) (runtime_conflict submission_key_conflict)
    ok (s, old.run_id))
]

-- runtime_inflight_attempts: the attempts of the pool that hold something
abbrev pub holds_any : ℕ → Attempt → Bool
holds_any pool a = a.pool_id == pool && (a.compute_held || a.budget_held)

abbrev pub holds_compute : ℕ → Attempt → Bool
holds_compute pool a = a.pool_id == pool && a.compute_held

abbrev pub direct_holds : ℕ → DirectAttempt → Bool
direct_holds pool d = d.pool_id == pool && d.compute_held

abbrev pub inflight_held : ℕ → Ledger → ℕ
inflight_held pool s =
    count (holds_any pool) s.attempts + count (direct_holds pool) s.direct_attempts

abbrev pub inflight_compute : ℕ → Ledger → ℕ
inflight_compute pool s =
    count (holds_compute pool) s.attempts + count (direct_holds pool) s.direct_attempts

-- The group's INSERT … ON CONFLICT DO UPDATE.
abbrev pub put_group : ℕ → ℕ → List Group → List Group
put_group id ceiling groups = elim (find group_key id groups) [
  | none ↦ record { group_id = id; hard_ceiling = ceiling; health = healthy } ∷ groups
  | some old ↦ update group_key id (λ g. record g { hard_ceiling = ceiling }) groups
]

abbrev pub context_of : Resource → ℕ
context_of (Resource.llm context) = context
context_of _ = 0

abbrev pub new_pool : PoolSpec → Pool
new_pool spec = record {
  pool_id = spec.pool_id;
  group_id = spec.group_id;
  spec = spec;
  engine_epoch = spec.engine_epoch;
  envelope_version = 1;
  target = spec.target;
  hard_ceiling = spec.hard_ceiling;
  context_limit = context_of spec.resource;
  model_profile = spec.model_profile;
  health = healthy;
  valid_until = spec.valid_until;
  quiesce_token = none;
}

-- The DO UPDATE: a new epoch is healthy and not quiesced.
abbrev pub reconfigured : PoolSpec → Pool → Pool
reconfigured spec p = record p {
  group_id = spec.group_id;
  spec = spec;
  engine_epoch = spec.engine_epoch;
  envelope_version = p.envelope_version + 1;
  target = spec.target;
  hard_ceiling = spec.hard_ceiling;
  context_limit = context_of spec.resource;
  model_profile = spec.model_profile;
  health = if p.engine_epoch == spec.engine_epoch then p.health else healthy;
  valid_until = spec.valid_until;
  quiesce_token = if p.engine_epoch == spec.engine_epoch then p.quiesce_token else none;
}

abbrev pub put_pool : PoolSpec → List Pool → List Pool
put_pool spec pools = elim (find pool_key spec.pool_id pools) [
  | none ↦ new_pool spec ∷ pools
  | some old ↦ update pool_key spec.pool_id (reconfigured spec) pools
]

abbrev pub changes_pool : PoolSpec → Option Pool → Bool
changes_pool spec none = false
changes_pool spec (some old) =
    not (old.engine_epoch == spec.engine_epoch && decides (PoolSpec-discrete old.spec spec))

-- `configure_pool`
unfoldable pub configure_pool : PoolSpec → ℤ → Ledger → Result Ledger
configure_pool spec (negsuc n) s = err (value_error invalid_ceiling)
configure_pool spec (pos zero) s = err (value_error invalid_ceiling)
configure_pool spec (pos (suc n)) s = do
  raise_if
      (changes_pool spec (find pool_key spec.pool_id s.pools)
        && ltb 0 (inflight_held spec.pool_id s))
      (runtime_conflict drain_before_reconfiguration)
  ok (record s { groups = put_group spec.group_id (suc n) s.groups; pools = put_pool spec s.pools })

abbrev pub is_degraded : Health → Bool
is_degraded degraded = true
is_degraded _ = false

abbrev pub is_quiesced : Option ℕ → Bool
is_quiesced none = false
is_quiesced (some token) = true

abbrev pub resume_row : Pool → Pool
resume_row p = record p { target = p.spec.target; health = healthy; quiesce_token = none }

-- `resume_engine`; a token that is empty or longer than 200 characters is `none`
unfoldable pub resume_engine : ℕ → ℕ → Option ℕ → Ledger → Result Ledger
resume_engine pool epoch none s = err (value_error token_required)
resume_engine pool epoch (some token) s = do
  p ← or_raise (find pool_key pool s.pools) (runtime_conflict epoch_mismatch)
  guard (p.engine_epoch == epoch) (runtime_conflict epoch_mismatch)
  if is_healthy p.health && not (is_quiesced p.quiesce_token) then ok s else (do
    guard (is_degraded p.health && names p.quiesce_token token) (runtime_conflict quiesce_changed)
    raise_if (ltb 0 (inflight_compute pool s)) (runtime_conflict unsettled_compute)
    ok (record s { pools = update pool_key pool resume_row s.pools }))
