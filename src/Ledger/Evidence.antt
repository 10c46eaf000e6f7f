-- ===== src/Ledger/Evidence.antt =====
-- store.py: the evidence of a termination, as `confirm_epoch_stopped` checks it.
use mta_runtime_intramind.Base.{
  ℕ, suc, Bool, true, false, not, ◌&&◌, ◌||◌, ltb, leb, ◌==◌, Result, ok, err, ◌>>=◌, ◌>>◌, guard,
  raise_if, value_error, exact_evidence_required, child_identity_required,
  replacement_evidence_required, not_isoformat, invalid_stopped_times, invalid_stop_verification,
}
use mta_runtime_intramind.Base.Int.{ℤ, pos}

-- The proof of termination as JSON gives it. A key that is missing or null is `absent`.
pub data Field : Type 0 where
  absent empty_text other_value : Field
  text : ℕ → Field

pub data Pid : Type 0 where
  absent other_value : Pid
  number : ℤ → Pid

pub data Verification : Type 0 where
  container_and_child_absent container_stopped_or_replaced other : Verification

-- A time: `datetime.fromisoformat` reads a text with its timezone or without one, and raises for a
-- malformed one. A key may be missing, and a value may be no text.
pub data Instant : Type 0 where
  aware naive : ℕ → Instant
  malformed missing no_text : Instant

-- What `fromisoformat` has read.
pub record ReadTime : Type 0 where
  pub has_zone : Bool
  pub at : ℕ

pub record Proof : Type 0 where
  pub pool_id : Field
  pub engine_epoch : Field
  pub verification : Verification
  pub container_id : Field
  pub model_pid : Pid
  pub old_container_id : Field
  pub observed_container_id : Field
  pub process_started_at : Instant
  pub old_started_at : Instant
  pub observed_started_at : Instant
  pub verified_stopped_at : Instant

abbrev pub is_text : Field → Bool
is_text (text t) = true
is_text _ = false

abbrev pub says : Field → ℕ → Bool
says (text t) expected = t == expected
says _ expected = false

abbrev pub is_absent : Field → Bool
is_absent Field.absent = true
is_absent _ = false

abbrev pub is_pid : Pid → Bool
is_pid (number (pos (suc n))) = true
is_pid _ = false

abbrev pub no_pid : Pid → Bool
no_pid Pid.absent = true
no_pid _ = false

-- `proof[key]`, whose KeyError becomes a ValueError
abbrev pub read_key : Instant → Result (Unit {0})
read_key missing = err (value_error exact_evidence_required)
read_key _ = ok tt

-- `fromisoformat` of the text; the AttributeError of a value that is no text becomes a ValueError
abbrev pub read_time : Instant → Result ReadTime
read_time (aware t) = ok (record { has_zone = true; at = t })
read_time (naive t) = ok (record { has_zone = false; at = t })
read_time malformed = err (value_error not_isoformat)
read_time missing = err (value_error exact_evidence_required)
read_time no_text = err (value_error exact_evidence_required)

-- The times of the start, the stop and the verification.
unfoldable pub check_times : Instant → Instant → Instant → Result (Unit {0})
check_times started_at stopped_at verified_at = do
  read_key started_at
  read_key stopped_at
  started ← read_time started_at
  stopped ← read_time stopped_at
  verified ← read_time verified_at
  raise_if (not started.has_zone || not stopped.has_zone || leb stopped.at started.at)
      (value_error invalid_stopped_times)
  raise_if (not verified.has_zone || ltb verified.at stopped.at)
      (value_error invalid_stop_verification)

abbrev pub is_known : Verification → Bool
is_known other = false
is_known _ = true

abbrev pub check_instance : Verification → Proof → Result (Unit {0})
check_instance other p = err (value_error exact_evidence_required)
check_instance container_and_child_absent p = do
  guard (is_text p.container_id && is_pid p.model_pid) (value_error child_identity_required)
  check_times p.process_started_at p.verified_stopped_at p.verified_stopped_at
check_instance container_stopped_or_replaced p = do
  guard
      (no_pid p.model_pid
        && (is_absent p.old_container_id || is_text p.old_container_id)
        && is_text p.observed_container_id)
      (value_error replacement_evidence_required)
  check_times p.old_started_at p.observed_started_at p.verified_stopped_at

-- The checks of `confirm_epoch_stopped` on its evidence where the work is to be recovered.
unfoldable pub check_proof : ℕ → ℕ → Proof → Result (Unit {0})
unfolding check_times
check_proof pool epoch p = do
  guard (says p.pool_id pool && says p.engine_epoch epoch && is_known p.verification)
      (value_error exact_evidence_required)
  check_instance p.verification p

-- What the operator gives: a text that is blank, one that is no JSON object, or a proof.
pub data StopEvidence : Type 0 where
  blank : StopEvidence
  prose : StopEvidence
  proof : Proof → StopEvidence

abbrev pub is_blank : StopEvidence → Bool
is_blank blank = true
is_blank _ = false

abbrev pub check_evidence : Bool → ℕ → ℕ → StopEvidence → Result (Unit {0})
check_evidence false pool epoch evidence = ok tt
check_evidence true pool epoch (proof p) = check_proof pool epoch p
check_evidence true pool epoch _ = err (value_error exact_evidence_required)
