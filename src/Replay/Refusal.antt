-- ===== src/Replay/Refusal.antt =====
-- model_step.py: a leaf whose request was refused, also one that catches StepReplayError.
use mta_runtime_intramind.Base.{
  ℕ, ◌+◌, ◌≡◌, ◌≢◌, refl, Bool, true, false, not, ◌||◌, ◌⊎◌, inl, inr, Option, none, some, ◌==◌,
  if◌then◌else◌, if_intro, length,
}
use mta_runtime_intramind.Base.Int.{ℤ}
use mta_runtime_intramind.Replay.Port.{
  Violation, not_sequential, suppressed_suspension, Payload, ModelRecord, ModelCall, Port, Outcome,
  Reply, answered, failed, violated, suspended, outcome_of, get_elem?, request_of, request_changed,
  replay, reject, send, is_given, invoke, rejected, own_error, await_call, replay_error, Leaf,
  returns, raises, invokes, rejects, Ended, value, exception, run_leaf, lost_suspension,
  unused_records, unserializable_result, Planned, done, calls, raised, conclude,
}
use mta_runtime_intramind.Replay.Accounting.{is_step}

-- A violation stays, whatever the leaf does next.
run_leaf-IsViolated :
    (digest : ℕ → ℕ → ℕ) (leaf : Leaf) (p : Port)
    → is_given p.violation ≡ true
    → is_given (run_leaf digest leaf p).0.violation ≡ true
unfolding run_leaf reject invoke
run_leaf-IsViolated digest (returns v) p given = given
run_leaf-IsViolated digest (raises e) p given = given
run_leaf-IsViolated digest (rejects message next) p given =
    let called = reject (rejected message) p in
    run_leaf-IsViolated digest (next called.1) called.0 refl
run_leaf-IsViolated digest (invokes own payload bound next) p v =
    let called = invoke digest own payload bound p in
    run_leaf-IsViolated digest (next called.1) called.0 (kept p.violation v)
  where
    kept :
        (o : Option Violation)
        → is_given o ≡ true
        → is_given
            (elim o as (λ x. Port × Outcome) [
              | some why ↦ (p, violated why)
              | none ↦
                  if p.closed || not own
                  then reject not_sequential p
                  else if is_given p.pending
                  then reject suppressed_suspension p
                  else send (request_of digest payload bound) p
            ]).0.violation
          ≡ true
    kept none given = absurd (cc)
    kept (some why) given = v

conclude-IsViolated :
    (p : Port) (e : Ended) → is_given p.violation ≡ true → is_step (conclude p e) ≡ false
unfolding conclude
conclude-IsViolated p (exception (own_error x)) given = refl
conclude-IsViolated p (exception (replay_error why)) given = refl
conclude-IsViolated p (exception await_call) given = by_violation p.violation given
  where
    by_violation :
        (o : Option Violation)
        → is_given o ≡ true
        → is_step (elim o as (λ x. Planned) [
          | some why ↦ raised (replay_error why)
          | none ↦ calls p.pending
        ])
          ≡ false
    by_violation none given = absurd (cc)
    by_violation (some why) given = refl
conclude-IsViolated p (value x) given = by_violation p.violation given
  where
    by_violation :
        (o : Option Violation)
        → is_given o ≡ true
        → is_step (elim o as (λ y. Planned) [
          | some why ↦ raised (replay_error why)
          | none ↦
              if is_given p.pending
              then raised (replay_error lost_suspension)
              else if not (p.ordinal == length p.records)
              then raised (replay_error unused_records)
              else elim x [ none ↦ unserializable_result | some result ↦ done result ]
        ])
          ≡ false
    by_violation none given = absurd (cc)
    by_violation (some why) given = refl

module _ (why : Violation) where
  -- Where the port raises StepReplayError, it keeps the violation.
  abbrev Remembers : Port × Outcome → Type 0
  Remembers x = x.1 ≡ violated why → is_given x.0.violation ≡ true

  send-Remembers : (s : Violation ⊎ ModelCall) (p : Port) → Remembers (send s p)
  unfolding reject replay
  send-Remembers (inl w) p = λ e. refl
  send-Remembers (inr call) p = by_record (get_elem? p.records p.ordinal)
    where
      not_violated : (r : Reply) → outcome_of r ≢ violated why
      not_violated (answered v) e = cc
      not_violated (failed text) e = cc

      by_record :
          (o : Option ModelRecord)
          → Remembers (elim o as (λ x. Port × Outcome) [
            | none ↦ (record p { pending = some call }, suspended)
            | some r ↦
                if r.request_digest == call.request_digest
                then (record p { ordinal = p.ordinal + 1 }, outcome_of r.reply)
                else reject (request_changed p.ordinal) p
          ])
      by_record none = λ e. absurd (cc)
      by_record (some r) =
          if_intro Remembers (r.request_digest == call.request_digest) _ _
            (λ _ e. absurd (not_violated r.reply e)) λ _ e. refl

  invoke-Remembers :
      (digest : ℕ → ℕ → ℕ) (own : Bool) (payload : Payload) (bound : Option ℤ) (p : Port)
      → Remembers (invoke digest own payload bound p)
  unfolding invoke reject
  invoke-Remembers digest own payload bound p = open_port p.violation refl
    where
      open_port :
          (o : Option Violation)
          → p.violation ≡ o
          → Remembers (elim o as (λ x. Port × Outcome) [
            | some w ↦ (p, violated w)
            | none ↦
                if p.closed || not own
                then reject not_sequential p
                else if is_given p.pending
                then reject suppressed_suspension p
                else send (request_of digest payload bound) p
          ])
      open_port (some w) same = λ e. rw same
      open_port none same =
          if_intro Remembers (p.closed || not own) _ _ (λ _ e. refl)
            λ _.
              if_intro Remembers (is_given p.pending) _ _ (λ _ e. refl)
                λ _. send-Remembers (request_of digest payload bound) p

-- Once a request was refused, nothing that the leaf does afterwards leads to a step.
pub refused-IsFinal :
    (digest : ℕ → ℕ → ℕ) (own : Bool) (payload : Payload) (bound : Option ℤ) (p : Port)
    (why : Violation) (leaf : Leaf)
    → (invoke digest own payload bound p).1 ≡ violated why
    → let ran = run_leaf digest leaf (invoke digest own payload bound p).0 in
      is_step (conclude ran.0 ran.1) ≡ false
refused-IsFinal digest own payload bound p why leaf e =
    let after = (invoke digest own payload bound p).0 in
    let ran = run_leaf digest leaf after in
    conclude-IsViolated ran.0 ran.1
      (run_leaf-IsViolated digest leaf after (invoke-Remembers why digest own payload bound p e))
