-- ===== src/Base/Outcome.antt =====
-- An operation that may raise: the exceptions of contracts.py, and the two that come from below it.
use mathlib.Core.Path.{◌≡◌, refl, subst}
use mathlib.Core.Bool.{Bool, true, false}
use mathlib.Core.Option.{Option, none, some}
use mta_runtime_intramind.Base.Tests.{if◌then◌else◌}

-- The messages of the exceptions, one constructor for each text.
pub data Detail : Type 0 where
  root_identity_conflict submission_key_conflict operation_identity_conflict : Detail
  root_backlog_full root_deadline_expired root_not_eligible : Detail
  no_accepted_budget lifetime_operation_limit materialization_limit : Detail
  stale_attempt_ownership attempt_cannot_send budget_ledger_missing : Detail
  committed_result_differs termination_not_recorded unknown_compute : Detail
  terminal_result_immutable pending_operations : Detail
  send_attempts_exhausted send_budget_unavailable : Detail
  missing_root missing_operation missing_payload missing_result : Detail
  negative_usage cancelled_with_result invalid_terminal_state partial_without_result : Detail
  epoch_mismatch quiesced_by_other not_available quiesce_changed unsettled_compute : Detail
  stale_envelope target_outside_ceiling owner_belongs_to_other owner_fenced token_required : Detail
  drain_before_reconfiguration invalid_ceiling evidence_required not_quiesced : Detail
  exact_evidence_required child_identity_required replacement_evidence_required : Detail
  not_isoformat invalid_stopped_times invalid_stop_verification : Detail
  endpoint_unavailable request_deadline_exceeded waiting_buffer_full exceeds_profile : Detail
  waiting_identity_conflict already_accepted older_epoch recovery_identity_conflict : Detail
  termination_not_proven recovery_limit stale_direct_ownership direct_cannot_send : Detail
  direct_not_sent retry_delay_out_of_range : Detail
  buffered_key_conflict no_buffering buffer_policy_exceeded buffered_input_too_large : Detail
  buffer_backlog_full missing_buffered_input pump_limit_out_of_range batch_without_inputs : Detail

pub data Error : Type 0 where
  -- contracts.RuntimeConflict and its subclass SendBudgetUnavailable
  runtime_conflict send_budget : Detail → Error
  -- contracts.AdmissionDenied(message, retryable)
  admission_denied : Detail → Bool → Error
  not_found value_error : Detail → Error
  -- a constraint of the schema refused the statement
  integrity_error : Error

-- The value that a call returns, or the exception that it raises.
pub data Result {ℓ} (A : Type ℓ) : Type ℓ where
  err : Error → Result A
  ok : A → Result A

abbrev pub or_raise {ℓ} : {A : Type ℓ} → Option A → Error → Result A
or_raise none exception = err exception
or_raise (some found) exception = ok found

-- `if test: raise exception`
abbrev pub raise_if : Bool → Error → Result (Unit {0})
raise_if false exception = ok tt
raise_if true exception = err exception

-- `if not test: raise exception`
abbrev pub guard : Bool → Error → Result (Unit {0})
guard false exception = err exception
guard true exception = ok tt

infixl 5 ◌>>=◌ ◌>>◌
abbrev pub ◌>>=◌ {ℓ κ} : {A : Type ℓ} {B : Type κ} → Result A → (A → Result B) → Result B
err exception >>= next = err exception
ok value >>= next = next value

abbrev pub ◌>>◌ {ℓ} : {A : Type ℓ} → Result (Unit {0}) → Result A → Result A
first >> second = first >>= λ _. second

-- What a successful outcome satisfies. A failure rolls its transaction back, so it says nothing.
abbrev pub OnOk {ℓ κ} : {A : Type ℓ} → (A → Type κ) → Result A → Type κ
OnOk P (ok a) = P a
OnOk P (err e) = Unit

-- The rule of a sequence: what the first part guarantees, the second may assume.
pub OnOk-bind {ℓ κ ι} :
    {A : Type ℓ} {B : Type κ} (P : A → Type ι) (Q : B → Type ι) (m : Result A) (f : A → Result B)
    → OnOk P m
    → ((a : A) → P a → OnOk Q (f a))
    → OnOk Q (m >>= f)
OnOk-bind P Q (ok a) f p q = q a p
OnOk-bind P Q (err e) f p q = tt

pub OnOk-eq {ℓ κ} : {A : Type ℓ} (P : A → Type κ) (m : Result A) (a : A) → OnOk P m → m ≡ ok a → P a
OnOk-eq P (ok b) a p e = subst P (ok-injective e) p
  where
    ok-injective : ok b ≡ ok a → b ≡ a
    ok-injective e = cc
OnOk-eq P (err x) a p e = absurd (cc)

-- The rules of a branch, of a guard and of a lookup.
pub OnOk-if {ℓ κ} :
    {A : Type ℓ} (P : A → Type κ) (test : Bool) (m n : Result A)
    → (test ≡ true → OnOk P m)
    → (test ≡ false → OnOk P n)
    → OnOk P (if test then m else n)
OnOk-if P true m n p q = p refl
OnOk-if P false m n p q = q refl

pub OnOk-guard {ℓ κ} :
    {A : Type ℓ} (P : A → Type κ) (test : Bool) (e : Error) (m : Result A)
    → (test ≡ true → OnOk P m)
    → OnOk P (guard test e >> m)
OnOk-guard P true e m p = p refl
OnOk-guard P false e m p = tt

pub OnOk-raise_if {ℓ κ} :
    {A : Type ℓ} (P : A → Type κ) (test : Bool) (e : Error) (m : Result A)
    → (test ≡ false → OnOk P m)
    → OnOk P (raise_if test e >> m)
OnOk-raise_if P true e m p = tt
OnOk-raise_if P false e m p = p refl

pub OnOk-or_raise {ℓ κ ι} :
    {A : Type ℓ} {B : Type κ} (P : B → Type ι) (o : Option A) (e : Error) (f : A → Result B)
    → ((a : A) → o ≡ some a → OnOk P (f a))
    → OnOk P (or_raise o e >>= f)
OnOk-or_raise P none e f p = tt
OnOk-or_raise P (some a) e f p = p a refl

pub OnOk-map {ℓ κ ι} :
    {A : Type ℓ} (P : A → Type κ) (Q : A → Type ι) (m : Result A)
    → ((a : A) → P a → Q a)
    → OnOk P m
    → OnOk Q m
OnOk-map P Q (ok a) f p = f a p
OnOk-map P Q (err e) f p = tt

pub OnOk-any {ℓ} : {A : Type ℓ} (m : Result A) → OnOk (λ a. Unit {0}) m
OnOk-any (ok a) = tt
OnOk-any (err e) = tt
