-- ===== src/Replay/Port.antt =====
-- model_step.py: the records, the port, and the planning of a step. A JSON value and the digest of a
-- request are numbers; `digest` stands for the SHA-256 of the serialised payload and its bound.
use mta_runtime_intramind.Base.{
  ℕ, ◌+◌, suc, zero, Bool, true, false, not, ◌||◌, ◌⊎◌, inl, inr, Option, none, some, List, [], ◌∷◌,
  ◌==◌, if◌then◌else◌, length,
}
use mta_runtime_intramind.Base.Int.{ℤ, pos, negsuc}

-- The messages of StepReplayError.
pub data Violation : Type 0 where
  not_sequential suppressed_suspension invalid_bound invalid_payload unserializable : Violation
  request_changed : ℕ → Violation
  lost_suspension unused_records : Violation
  -- the message of a caller of `reject`
  rejected : ℕ → Violation

-- A payload as `invoke` finds it: an object of JSON values, an object that is none, another value.
pub data Payload : Type 0 where
  json_object : ℕ → Payload
  broken_object other_value : Payload

-- Of the fields `result` and `error` exactly one is given.
pub data Reply : Type 0 where
  answered failed : ℕ → Reply

pub record ModelRecord : Type 0 where
  pub request_digest : ℕ
  pub reply : Reply

-- Why ModelRecord refuses its fields.
pub data RecordFault : Type 0 where
  not_exactly_one empty_error no_object no_json : RecordFault

-- `ModelRecord.__post_init__`; an error that is no text, or an empty one, is `none`
unfoldable pub model_record : ℕ → Option Payload → Option (Option ℕ) → RecordFault ⊎ ModelRecord
model_record d none none = inl not_exactly_one
model_record d (some result) (some error) = inl not_exactly_one
model_record d none (some none) = inl empty_error
model_record d none (some (some text)) = inr (record { request_digest = d; reply = failed text })
model_record d (some (json_object v)) none = inr (record { request_digest = d; reply = answered v })
model_record d (some broken_object) none = inl no_json
model_record d (some other_value) none = inl no_object

pub record ModelCall : Type 0 where
  pub payload : ℕ
  pub max_output_tokens : ℕ
  pub request_digest : ℕ

-- ModelPort. `_owner` is compared when a request is made, so the request says whose task makes it.
pub record Port : Type 0 where
  pub records : List ModelRecord
  pub ordinal : ℕ
  pub pending : Option ModelCall
  pub violation : Option Violation
  pub closed : Bool

unfoldable pub new_port : List ModelRecord → Port
new_port records = record {
  records = records;
  ordinal = 0;
  pending = none;
  violation = none;
  closed = false;
}

-- What the leaf gets from the port: a value, or one of the three exceptions.
pub data Outcome : Type 0 where
  returned : ℕ → Outcome
  -- RuntimeError, with the recorded message
  model_error : ℕ → Outcome
  -- _AwaitModelCall
  suspended : Outcome
  violated : Violation → Outcome

-- `reject`
unfoldable pub reject : Violation → Port → Port × Outcome
reject why p = (record p { violation = some why }, violated why)

abbrev pub outcome_of : Reply → Outcome
outcome_of (answered v) = returned v
outcome_of (failed text) = model_error text

-- `self._records[ordinal]`, where there is one
unfoldable pub get_elem? {ℓ} : {A : Type ℓ} → List A → ℕ → Option A
get_elem? [] n = none
get_elem? (x ∷ xs) zero = some x
get_elem? (x ∷ xs) (suc n) = get_elem? xs n

-- The checks of `invoke` on its arguments; a bound that is no int is `none`.
unfoldable pub request_of : (ℕ → ℕ → ℕ) → Payload → Option ℤ → Violation ⊎ ModelCall
request_of digest payload none = inl invalid_bound
request_of digest payload (some (negsuc n)) = inl invalid_bound
request_of digest payload (some (pos zero)) = inl invalid_bound
request_of digest other_value (some (pos (suc n))) = inl invalid_payload
request_of digest broken_object (some (pos (suc n))) = inl unserializable
request_of digest (json_object v) (some (pos (suc n))) =
    inr (record { payload = v; max_output_tokens = suc n; request_digest = digest v (suc n) })

-- The rest of `invoke`: the next record answers, or the leaf is suspended.
unfoldable pub replay : ModelCall → Port → Port × Outcome
unfolding reject get_elem?
replay call p = elim (get_elem? p.records p.ordinal) [
  | none ↦ (record p { pending = some call }, suspended)
  | some r ↦
      if r.request_digest == call.request_digest
      then (record p { ordinal = p.ordinal + 1 }, outcome_of r.reply)
      else reject (request_changed p.ordinal) p
]

abbrev pub is_given : {A : Type 0} → Option A → Bool
is_given none = false
is_given (some a) = true

abbrev pub send : Violation ⊎ ModelCall → Port → Port × Outcome
send (inl why) p = reject why p
send (inr call) p = replay call p

-- `invoke`
unfoldable pub invoke : (ℕ → ℕ → ℕ) → Bool → Payload → Option ℤ → Port → Port × Outcome
unfolding reject request_of replay
invoke digest own payload bound p = elim p.violation [
  | some why ↦ (p, violated why)
  | none ↦
      if p.closed || not own
      then reject not_sequential p
      else if is_given p.pending
      then reject suppressed_suspension p
      else send (request_of digest payload bound) p
]

-- What a leaf raises: an exception of its own, or one of the port that it passes on.
pub data Raised : Type 0 where
  own_error : ℕ → Raised
  await_call : Raised
  replay_error : Violation → Raised

-- A leaf as the caller of the port: what it does next may depend on every outcome that it has seen,
-- exceptions included. A result that has no JSON is `none`.
pub data Leaf : Type 0 where
  returns : Option ℕ → Leaf
  raises : Raised → Leaf
  -- from its own task or another, payload and bound
  invokes : Bool → Payload → Option ℤ → (Outcome → Leaf) → Leaf
  rejects : ℕ → (Outcome → Leaf) → Leaf

pub data Ended : Type 0 where
  value : Option ℕ → Ended
  exception : Raised → Ended

-- `await body(port)`
unfoldable pub run_leaf : (ℕ → ℕ → ℕ) → Leaf → Port → Port × Ended
unfolding invoke reject
run_leaf digest (returns v) p = (p, value v)
run_leaf digest (raises e) p = (p, exception e)
run_leaf digest (invokes own payload bound next) p =
    let called = invoke digest own payload bound p in run_leaf digest (next called.1) called.0
run_leaf digest (rejects message next) p =
    let called = reject (rejected message) p in run_leaf digest (next called.1) called.0

-- ModelStep, or what `plan_model_step` raises.
pub data Planned : Type 0 where
  done : ℕ → Planned
  calls : Option ModelCall → Planned
  raised : Raised → Planned
  -- `_json_copy` of the leaf's result
  unserializable_result : Planned

unfoldable pub conclude : Port → Ended → Planned
conclude p (exception (own_error e)) = raised (own_error e)
conclude p (exception (replay_error why)) = raised (replay_error why)
conclude p (exception await_call) = elim p.violation [
  | some why ↦ raised (replay_error why)
  | none ↦ calls p.pending
]
conclude p (value v) = elim p.violation [
  | some why ↦ raised (replay_error why)
  | none ↦
      if is_given p.pending
      then raised (replay_error lost_suspension)
      else if not (p.ordinal == length p.records)
      then raised (replay_error unused_records)
      else elim v [ none ↦ unserializable_result | some result ↦ done result ]
]

-- `plan_model_step`, with the port as it leaves it
unfoldable pub plan_model_step : (ℕ → ℕ → ℕ) → Leaf → List ModelRecord → Port × Planned
unfolding new_port run_leaf conclude
plan_model_step digest leaf records =
    let ran = run_leaf digest leaf (new_port records) in
    (record ran.0 { closed = true }, conclude ran.0 ran.1)
