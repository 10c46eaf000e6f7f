-- ===== src/Replay/Accounting.antt =====
-- model_step.py: what holds of every leaf, also of one that catches the exceptions of its port.
use mta_runtime_intramind.Base.{
  ℕ, ◌+◌, suc, zero, ◌≤◌, ◌≡◌, refl, Bool, true, false, not, ◌||◌, ◌⊎◌, inl, inr, Option, none,
  some, List, [], ◌∷◌, ◌==◌, if◌then◌else◌, if_intro, length, arith, Option-cases, ==→eq,
}
use mta_runtime_intramind.Base.Int.{ℤ}
use mta_runtime_intramind.Replay.Port.{
  Violation, not_sequential, suppressed_suspension, Payload, ModelRecord, ModelCall, Port, Outcome,
  violated, get_elem?, request_of, request_changed, replay, reject, send, is_given, invoke,
  rejected, own_error, await_call, replay_error, Leaf, returns, raises, invokes, rejects, Ended,
  value, exception, run_leaf, lost_suspension, unused_records, unserializable_result, Planned, done,
  calls, raised, conclude, new_port, plan_model_step,
}

-- A step that the caller goes on with: a result, or a request to send.
abbrev pub is_step : Planned → Bool
is_step (done v) = true
is_step (calls (some call)) = true
is_step _ = false

-- A request waits for its response only where no record is left.
record IsAccounted (records : List ModelRecord) (p : Port) : Type 0 where
  pub same : p.records ≡ records
  pub last : (call : ModelCall) → p.pending ≡ some call → get_elem? records p.ordinal ≡ none
  pub within : p.ordinal ≤ length records

get_elem?-none :
    (xs : List ModelRecord) (n : ℕ) → n ≤ length xs → get_elem? xs n ≡ none → n ≡ length xs
unfolding get_elem?
get_elem?-none [] n le e = omega arith
get_elem?-none (x ∷ xs) zero le e = cc
get_elem?-none (x ∷ xs) (suc n) le e = ground (arith, get_elem?-none xs n (omega arith) e)

get_elem?-some :
    (xs : List ModelRecord) (n : ℕ) (r : ModelRecord) → get_elem? xs n ≡ some r → n + 1 ≤ length xs
unfolding get_elem?
get_elem?-some [] n r e = cc
get_elem?-some (x ∷ xs) zero r e = omega arith
get_elem?-some (x ∷ xs) (suc n) r e = ground (arith, get_elem?-some xs n r e)

module _ (records : List ModelRecord) where
  abbrev Kept : Port × Outcome → Type 0
  Kept x = IsAccounted records x.0

  reject-IsAccounted : (why : Violation) (p : Port) → IsAccounted records p → Kept (reject why p)
  unfolding reject
  reject-IsAccounted why p v = record { same = v.same; last = v.last; within = v.within }

  replay-IsAccounted :
      (call : ModelCall) (p : Port)
      → is_given p.pending ≡ false
      → IsAccounted records p
      → Kept (replay call p)
  unfolding replay
  replay-IsAccounted call p free v = elim (Option-cases (get_elem? p.records p.ordinal)) [
    | inl e ↦
        rw (replay, e) (record { same = v.same; last = λ c h. rw v.same at e; within = v.within })
    | inr (r, e) ↦
        rw (replay, e)
          (if_intro Kept (r.request_digest == call.request_digest) _ _
            (λ _. record {
              same = v.same;
              last = λ c h. absurd (no_pending p.pending c free h);
              within = get_elem?-some records p.ordinal r (rw v.same at e);
            })
            λ _. reject-IsAccounted (request_changed p.ordinal) p v)
  ]
    where
      no_pending : (o : Option ModelCall) (c : ModelCall) → is_given o ≡ false → o ≡ some c → ⊥
      no_pending none c free h = cc
      no_pending (some d) c free h = cc

  invoke-IsAccounted :
      (digest : ℕ → ℕ → ℕ) (own : Bool) (payload : Payload) (bound : Option ℤ) (p : Port)
      → IsAccounted records p
      → Kept (invoke digest own payload bound p)
  unfolding invoke
  invoke-IsAccounted digest own payload bound p v = open_port p.violation
    where
      sent : is_given p.pending ≡ false → (s : Violation ⊎ ModelCall) → Kept (send s p)
      sent free (inl why) = reject-IsAccounted why p v
      sent free (inr call) = replay-IsAccounted call p free v

      open_port :
          (o : Option Violation)
          → Kept (elim o as (λ x. Port × Outcome) [
            | some why ↦ (p, violated why)
            | none ↦
                if p.closed || not own
                then reject not_sequential p
                else if is_given p.pending
                then reject suppressed_suspension p
                else send (request_of digest payload bound) p
          ])
      open_port (some why) = v
      open_port none =
          if_intro Kept (p.closed || not own) _ _ (λ _. reject-IsAccounted not_sequential p v)
            λ _.
              if_intro Kept (is_given p.pending) _ _
                (λ _. reject-IsAccounted suppressed_suspension p v)
                λ free. sent free (request_of digest payload bound)

  run_leaf-IsAccounted :
      (digest : ℕ → ℕ → ℕ) (leaf : Leaf) (p : Port)
      → IsAccounted records p
      → IsAccounted records (run_leaf digest leaf p).0
  unfolding run_leaf
  run_leaf-IsAccounted digest (returns v) p accounted = accounted
  run_leaf-IsAccounted digest (raises e) p accounted = accounted
  run_leaf-IsAccounted digest (invokes own payload bound next) p accounted =
      let called = invoke digest own payload bound p in
      run_leaf-IsAccounted digest (next called.1) called.0
        (invoke-IsAccounted digest own payload bound p accounted)
  run_leaf-IsAccounted digest (rejects message next) p accounted =
      let called = reject (rejected message) p in
      run_leaf-IsAccounted digest (next called.1) called.0
        (reject-IsAccounted (rejected message) p accounted)

none_given : {A : Type 0} (o : Option A) → is_given o ≡ false → o ≡ none
none_given none e = refl
none_given (some a) e = cc

awaited :
    (o : Option Violation) (q : Option ModelCall)
    → is_step (elim o as (λ x. Planned) [ some why ↦ raised (replay_error why) | none ↦ calls q ])
      ≡ true
    → (call : ModelCall) × (q ≡ some call)
awaited (some why) q step = absurd (cc)
awaited none none step = absurd (cc)
awaited none (some call) step = (call, refl)

used_up :
    (o : Option Violation) (given consumed : Bool) (x : Option ℕ)
    → is_step (elim o as (λ y. Planned) [
      | some why ↦ raised (replay_error why)
      | none ↦
          if given
          then raised (replay_error lost_suspension)
          else if not consumed
          then raised (replay_error unused_records)
          else elim x [ none ↦ unserializable_result | some result ↦ done result ]
    ])
      ≡ true
    → consumed ≡ true
used_up (some why) given consumed x step = absurd (cc)
used_up none true consumed x step = absurd (cc)
used_up none false true x step = refl
used_up none false false x step = absurd (cc)

-- Whatever a leaf does with the exceptions of its port: where planning answers with a result or
-- with the next request, the leaf has used up every record.
pub plan_model_step-IsAccounted :
    (digest : ℕ → ℕ → ℕ) (leaf : Leaf) (records : List ModelRecord)
    → is_step (plan_model_step digest leaf records).1 ≡ true
    → (plan_model_step digest leaf records).0.ordinal ≡ length records
unfolding plan_model_step conclude new_port
plan_model_step-IsAccounted digest leaf records step =
    by_end (run_leaf digest leaf (new_port records)).0 (run_leaf digest leaf (new_port records)).1
      (run_leaf-IsAccounted records digest leaf (new_port records) started) step
  where
    started : IsAccounted records (new_port records)
    started = record { same = refl; last = λ call e. absurd (cc); within = omega arith }

    by_end :
        (p : Port) (e : Ended)
        → IsAccounted records p
        → is_step (conclude p e) ≡ true
        → p.ordinal ≡ length records
    by_end p (exception (own_error x)) v step = absurd (cc)
    by_end p (exception (replay_error why)) v step = absurd (cc)
    by_end p (exception await_call) v step =
        let (call, e) = awaited p.violation p.pending step in
        get_elem?-none records p.ordinal v.within (v.last call e)
    by_end p (value x) v step = ==→eq p.ordinal (length records) (
        rw v.same at
          (used_up p.violation (is_given p.pending) (p.ordinal == length p.records) x step))
