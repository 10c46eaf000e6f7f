-- ===== src/Replay/Drive.antt =====
-- model_step.py: a caller that records each response and plans again, against a leaf that awaits the
-- model itself.
use mta_runtime_intramind.Base.{
  ℕ, ◌+◌, suc, zero, ◌≡◌, ◌≢◌, refl, sym, ap, ◌∙◌, true, false, ◌⊎◌, inl, inr, none, some, List, [],
  ◌∷◌, ◌++◌, map, ==_refl, length, arith,
}
use mta_runtime_intramind.Replay.Port.{
  Violation, not_sequential, Reply, ModelRecord, ModelCall, Port, Outcome, suspended, violated,
  outcome_of, get_elem?, request_of, replay, reject, send, invoke, rejected, Raised, own_error,
  await_call, replay_error, Leaf, returns, raises, invokes, rejects, run_leaf, Planned, done, calls,
  raised, unserializable_result, conclude, new_port, plan_model_step,
}

-- What follows a leaf's own end, when nothing was refused and no call is pending.
abbrev ended : Raised → Planned
ended (own_error e) = raised (own_error e)
ended (replay_error why) = raised (replay_error why)
ended await_call = calls none

-- The leaf with the model's answers at hand: the requests that it makes, and its end.
unfoldable pub direct_run : (ℕ → ℕ → ℕ) → (ModelCall → Reply) → Leaf → List ModelCall × Planned
unfolding request_of
direct_run digest answer (returns none) = ([], unserializable_result)
direct_run digest answer (returns (some v)) = ([], done v)
direct_run digest answer (raises e) = ([], ended e)
direct_run digest answer (rejects message next) = ([], raised (replay_error (rejected message)))
direct_run digest answer (invokes false payload bound next) =
    ([], raised (replay_error not_sequential))
direct_run digest answer (invokes true payload bound next) =
    elim (request_of digest payload bound) [
      | inl why ↦ ([], raised (replay_error why))
      | inr call ↦
          let rest = direct_run digest answer (next (outcome_of (answer call))) in
          (call ∷ rest.0, rest.1)
    ]

-- A leaf that lets the two exceptions of the port pass, as the port asks of it.
unfoldable pub IsPolite : Leaf → Type 0
IsPolite (returns v) = Unit
IsPolite (raises e) = Unit
IsPolite (rejects message next) =
    next (violated (rejected message)) ≡ raises (replay_error (rejected message))
IsPolite (invokes own payload bound next) =
    (next suspended ≡ raises await_call)
    × ((why : Violation) → next (violated why) ≡ raises (replay_error why))
    × ((r : Reply) → IsPolite (next (outcome_of r)))

abbrev pub record_of : (ModelCall → Reply) → ModelCall → ModelRecord
record_of answer call = record { request_digest = call.request_digest; reply = answer call }

-- The caller: plan, record the model's answer to the next request, and plan again.
unfoldable pub drive : (ℕ → ℕ → ℕ) → (ModelCall → Reply) → Leaf → ℕ → List ModelRecord → Planned
drive digest answer leaf zero records = (plan_model_step digest leaf records).1
drive digest answer leaf (suc n) records = elim (plan_model_step digest leaf records).1 [
  | calls (some call) ↦ drive digest answer leaf n (records ++ record_of answer call ∷ [])
  | calls none ↦ calls none
  | done v ↦ done v
  | raised e ↦ raised e
  | unserializable_result ↦ unserializable_result
]

abbrev at : List ModelRecord → ℕ → Port
at records n = record {
  records = records;
  ordinal = n;
  pending = none;
  violation = none;
  closed = false;
}

abbrev planned_from : (ℕ → ℕ → ℕ) → Leaf → Port → Planned
planned_from digest leaf p = let ran = run_leaf digest leaf p in conclude ran.0 ran.1

get_elem?-length :
    (pre : List ModelRecord) (r : ModelRecord) (rest : List ModelRecord)
    → get_elem? (pre ++ r ∷ rest) (length pre) ≡ some r
unfolding get_elem?
get_elem?-length [] r rest = refl
get_elem?-length (x ∷ pre) r rest = get_elem?-length pre r rest

get_elem?-end : (pre : List ModelRecord) → get_elem? pre (length pre) ≡ none
unfolding get_elem?
get_elem?-end [] = refl
get_elem?-end (x ∷ pre) = get_elem?-end pre

append_one :
    {A : Type 0} (pre : List A) (r : A) (rest : List A) → (pre ++ r ∷ []) ++ rest ≡ pre ++ r ∷ rest
append_one [] r rest = refl
append_one (x ∷ pre) r rest = ap (λ xs. x ∷ xs) (append_one pre r rest)

length-append_one :
    (pre : List ModelRecord) (r : ModelRecord) → length (pre ++ r ∷ []) ≡ length pre + 1
length-append_one [] r = refl
length-append_one (x ∷ pre) r = ground (arith, length-append_one pre r)

append_nil : {A : Type 0} (xs : List A) → xs ++ [] ≡ xs
append_nil [] = refl
append_nil (x ∷ xs) = ap (λ ys. x ∷ ys) (append_nil xs)

zero_plus : (n : ℕ) → 0 + n ≡ n
zero_plus n = omega arith

suc_plus : (m n : ℕ) → suc m + n ≡ suc (m + n)
suc_plus m n = omega arith

not_nil : {A : Type 0} (front : List A) (call : A) (more : List A) → front ++ call ∷ more ≢ []
not_nil [] call more e = cc
not_nil (f ∷ front) call more e = cc

head_eq : {A : Type 0} {x y : A} {xs ys : List A} → x ∷ xs ≡ y ∷ ys → x ≡ y
head_eq e = cc

tail_eq : {A : Type 0} {x y : A} {xs ys : List A} → x ∷ xs ≡ y ∷ ys → xs ≡ ys
tail_eq e = cc

module _ (digest : ℕ → ℕ → ℕ) (answer : ModelCall → Reply) where
  abbrev after : (Outcome → Leaf) → Violation ⊎ ModelCall → List ModelCall × Planned
  after next s = elim s as (λ x. List ModelCall × Planned) [
    | inl why ↦ ([], raised (replay_error why))
    | inr call ↦
        let rest = direct_run digest answer (next (outcome_of (answer call))) in
        (call ∷ rest.0, rest.1)
  ]

  abbrev answers : List ModelCall → List ModelRecord
  answers trace = map (record_of answer) trace

  abbrev sent_from : (Outcome → Leaf) → Violation ⊎ ModelCall → Port → Planned
  sent_from next s p = let called = send s p in planned_from digest (next called.1) called.0

  -- The record of the request that is due answers it.
  replayed :
      (call : ModelCall) (pre rest : List ModelRecord)
      → replay call (at (pre ++ record_of answer call ∷ rest) (length pre)) ≡ (
        at
            ((pre ++ record_of answer call ∷ []) ++ rest)
            (length (pre ++ record_of answer call ∷ [])),
        outcome_of (answer call),
      )
  unfolding replay reject
  replayed call pre rest = rw (
    replay,
    get_elem?-length pre (record_of answer call) rest,
    ==_refl call.request_digest,
    append_one pre (record_of answer call) rest,
    length-append_one pre (record_of answer call),
  )

  awaited :
      (call : ModelCall) (pre : List ModelRecord)
      → replay call (at pre (length pre))
        ≡ (record (at pre (length pre)) { pending = some call }, suspended)
  unfolding replay
  awaited call pre = rw (get_elem?-end pre)

  -- With every response recorded, planning ends as the leaf does.
  follows :
      (leaf : Leaf) (pre : List ModelRecord)
      → IsPolite leaf
      → planned_from digest leaf
          (at (pre ++ answers (direct_run digest answer leaf).0) (length pre))
        ≡ (direct_run digest answer leaf).1
  unfolding direct_run IsPolite run_leaf conclude invoke reject
  follows (returns none) pre polite = rw (append_nil pre, ==_refl (length pre))
  follows (returns (some v)) pre polite = rw (append_nil pre, ==_refl (length pre))
  follows (raises (own_error e)) pre polite = refl
  follows (raises await_call) pre polite = refl
  follows (raises (replay_error why)) pre polite = refl
  follows (rejects message next) pre polite =
      ap
        (λ leaf.
          planned_from digest leaf
            (record (at (pre ++ []) (length pre)) { violation = some (rejected message) }))
        polite
  follows (invokes false payload bound next) pre polite =
      ap
        (λ leaf.
          planned_from digest leaf
            (record (at (pre ++ []) (length pre)) { violation = some not_sequential }))
        (polite.1 not_sequential)
  follows (invokes true payload bound next) pre polite =
      sent (request_of digest payload bound) λ o pre' known. follows (next o) pre' known
    where
      sent :
          (s : Violation ⊎ ModelCall)
          → ((o : Outcome) (pre' : List ModelRecord)
              → IsPolite (next o)
              → planned_from digest
                  (next o)
                  (at (pre' ++ answers (direct_run digest answer (next o)).0) (length pre'))
                ≡ (direct_run digest answer (next o)).1)
          → sent_from next s (at (pre ++ answers (after next s).0) (length pre)) ≡ (after next s).1
      sent (inl why) rest_follows = rw (polite.1 why) refl
      sent (inr call) rest_follows =
          let rest = direct_run digest answer (next (outcome_of (answer call))) in
          rw (replayed call pre (answers rest.0)) (
            rest_follows (outcome_of (answer call)) (pre ++ record_of answer call ∷ [])
              (polite.2 (answer call)))

  -- With the first responses recorded, planning answers with the next request.
  suspends :
      (leaf : Leaf) (pre : List ModelRecord) (front : List ModelCall) (call : ModelCall)
      (more : List ModelCall)
      → IsPolite leaf
      → (direct_run digest answer leaf).0 ≡ front ++ call ∷ more
      → planned_from digest leaf (at (pre ++ answers front) (length pre)) ≡ calls (some call)
  unfolding direct_run IsPolite run_leaf conclude invoke reject
  suspends (returns none) pre front call more polite e = absurd (not_nil front call more (sym e))
  suspends (returns (some v)) pre front call more polite e =
      absurd (not_nil front call more (sym e))
  suspends (raises r) pre front call more polite e = absurd (not_nil front call more (sym e))
  suspends (rejects message next) pre front call more polite e =
      absurd (not_nil front call more (sym e))
  suspends (invokes false payload bound next) pre front call more polite e =
      absurd (not_nil front call more (sym e))
  suspends (invokes true payload bound next) pre front call more polite e =
      sent (request_of digest payload bound) front e
        λ o pre' front' known e'. suspends (next o) pre' front' call more known e'
    where
      sent :
          (s : Violation ⊎ ModelCall) (front : List ModelCall)
          → (after next s).0 ≡ front ++ call ∷ more
          → ((o : Outcome) (pre' : List ModelRecord) (front' : List ModelCall)
              → IsPolite (next o)
              → (direct_run digest answer (next o)).0 ≡ front' ++ call ∷ more
              → planned_from digest (next o) (at (pre' ++ answers front') (length pre'))
                ≡ calls (some call))
          → sent_from next s (at (pre ++ answers front) (length pre)) ≡ calls (some call)
      sent (inl why) front e rest_suspends = absurd (not_nil front call more (sym e))
      sent (inr c) [] e rest_suspends =
          rw (append_nil pre, awaited c pre, polite.0) (ap (λ x. calls (some x)) (head_eq e))
      sent (inr c) (f ∷ front) e rest_suspends = rw (← head_eq e) (
          rw (replayed c pre (answers front)) (
            rest_suspends (outcome_of (answer c)) (pre ++ record_of answer c ∷ []) front
              (polite.2 (answer c)) (tail_eq e)))

  -- What planning with all responses answers is no further request.
  direct_run-end :
      (leaf : Leaf) (call : ModelCall) → (direct_run digest answer leaf).1 ≢ calls (some call)
  unfolding direct_run
  direct_run-end (returns none) call e = cc
  direct_run-end (returns (some v)) call e = cc
  direct_run-end (raises (own_error x)) call e = cc
  direct_run-end (raises await_call) call e = cc
  direct_run-end (raises (replay_error why)) call e = cc
  direct_run-end (rejects message next) call e = cc
  direct_run-end (invokes false payload bound next) call e = cc
  direct_run-end (invokes true payload bound next) call e =
      sent (request_of digest payload bound) (λ o f. direct_run-end (next o) call f) e
    where
      sent :
          (s : Violation ⊎ ModelCall)
          → ((o : Outcome) → (direct_run digest answer (next o)).1 ≢ calls (some call))
          → (after next s).1 ≢ calls (some call)
      sent (inl why) ends e = cc
      sent (inr c) ends e = ends (outcome_of (answer c)) e

  stays :
      (leaf : Leaf) (n : ℕ) (records : List ModelRecord) (end : Planned)
      → (plan_model_step digest leaf records).1 ≡ end
      → ((call : ModelCall) → end ≢ calls (some call))
      → drive digest answer leaf n records ≡ end
  unfolding drive
  stays leaf zero records end e final = e
  stays leaf (suc n) records (calls (some call)) e final = absurd (final call refl)
  stays leaf (suc n) records (calls none) e final = rw (drive, e)
  stays leaf (suc n) records (done v) e final = rw (drive, e)
  stays leaf (suc n) records (raised r) e final = rw (drive, e)
  stays leaf (suc n) records unserializable_result e final = rw (drive, e)

  answers-append_one :
      (front : List ModelCall) (call : ModelCall)
      → answers front ++ record_of answer call ∷ [] ≡ answers (front ++ call ∷ [])
  answers-append_one [] call = refl
  answers-append_one (c ∷ front) call =
      ap (λ xs. record_of answer c ∷ xs) (answers-append_one front call)

  drive_on :
      (leaf : Leaf) (extra : ℕ) (front more : List ModelCall)
      → IsPolite leaf
      → (direct_run digest answer leaf).0 ≡ front ++ more
      → drive digest answer leaf (length more + extra) (answers front)
        ≡ (direct_run digest answer leaf).1
  unfolding plan_model_step new_port drive
  drive_on leaf extra front [] polite e = rw (zero_plus extra) (
      stays leaf extra (answers front) (direct_run digest answer leaf).1
        (rw (ap answers (e ∙ append_nil front)) at (follows leaf [] polite)) (direct_run-end leaf))
  drive_on leaf extra front (call ∷ more) polite e =
      rw
        (
          suc_plus (length more) extra,
          drive,
          suspends leaf [] front call more polite e,
          answers-append_one front call,
        )
        (drive_on leaf extra (front ++ call ∷ []) more polite
          (e ∙ sym (append_one front call more)))

  -- Planning step by step, with every response recorded before the next plan, ends as a polite leaf
  -- ends that awaits the model itself. As many steps are enough as that leaf makes requests.
  pub drive-direct_run :
      (leaf : Leaf) (extra : ℕ)
      → IsPolite leaf
      → drive digest answer leaf (length (direct_run digest answer leaf).0 + extra) []
        ≡ (direct_run digest answer leaf).1
  drive-direct_run leaf extra polite =
      drive_on leaf extra [] (direct_run digest answer leaf).0 polite refl
