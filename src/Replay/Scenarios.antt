-- ===== src/Replay/Scenarios.antt =====
-- model_step.py: a leaf that makes two requests, the second from the first response.
use mta_runtime_intramind.Base.{ℕ, ◌+◌, ◌≡◌, refl, true, false, some, [], ◌∷◌, length}
use mta_runtime_intramind.Base.Int.{pos}
use mta_runtime_intramind.Replay.Port.{
  request_changed, json_object, Reply, answered, failed, ModelRecord, ModelCall, Outcome, returned,
  model_error, suspended, violated, outcome_of, own_error, await_call, replay_error, Leaf, returns,
  raises, invokes, done, calls, plan_model_step, invoke, new_port, run_leaf, conclude, Port, replay,
  get_elem?, reject, request_of,
}
use mta_runtime_intramind.Replay.Drive.{drive, direct_run, IsPolite, drive-direct_run}
use mta_runtime_intramind.Replay.Accounting.{is_step, plan_model_step-IsAccounted}
use mta_runtime_intramind.Replay.Refusal.{refused-IsFinal}

abbrev digest_of : ℕ → ℕ → ℕ
digest_of payload bound = payload + bound

abbrev then_return : Outcome → Leaf
then_return (returned v) = returns (some v)
then_return (model_error text) = raises (own_error text)
then_return suspended = raises await_call
then_return (violated why) = raises (replay_error why)

abbrev then_ask : Outcome → Leaf
then_ask (returned v) = invokes true (json_object v) (some (pos 5)) then_return
then_ask (model_error text) = raises (own_error text)
then_ask suspended = raises await_call
then_ask (violated why) = raises (replay_error why)

abbrev two_requests : Leaf
two_requests = invokes true (json_object 7) (some (pos 10)) then_ask

abbrev model : ModelCall → Reply
model call = answered (call.payload + 1)

two_requests-IsPolite : IsPolite two_requests
unfolding IsPolite
two_requests-IsPolite = (refl, (λ why. refl), next)
  where
    end : (r : Reply) → IsPolite (then_return (outcome_of r))
    end (answered v) = tt
    end (failed text) = tt

    next : (r : Reply) → IsPolite (then_ask (outcome_of r))
    next (answered v) = (refl, (λ why. refl), end)
    next (failed text) = tt

-- The first response is asked for, then the second, and then the leaf has its result.
first_step :
    (plan_model_step digest_of two_requests []).1
    ≡ calls (some (record { payload = 7; max_output_tokens = 10; request_digest = 17 }))
unfolding plan_model_step run_leaf conclude new_port invoke replay get_elem? request_of
first_step = refl

abbrev first_record : ModelRecord
first_record = record { request_digest = 17; reply = answered 8 }

last_step :
    (plan_model_step digest_of two_requests
      (first_record ∷ record { request_digest = 13; reply = answered 9 } ∷ [])).1
    ≡ done 9
unfolding plan_model_step run_leaf conclude new_port invoke replay get_elem? request_of
last_step = refl

drive-direct_run_example :
    drive digest_of model two_requests (length (direct_run digest_of model two_requests).0 + 1) []
    ≡ (direct_run digest_of model two_requests).1
drive-direct_run_example = drive-direct_run digest_of model two_requests 1 two_requests-IsPolite

second_is_step : is_step (plan_model_step digest_of two_requests (first_record ∷ [])).1 ≡ true
unfolding plan_model_step run_leaf conclude new_port invoke replay get_elem? request_of
second_is_step = refl

plan_model_step-IsAccounted_example :
    (plan_model_step digest_of two_requests (first_record ∷ [])).0.ordinal ≡ 1
plan_model_step-IsAccounted_example =
    plan_model_step-IsAccounted digest_of two_requests (first_record ∷ []) second_is_step

abbrev changed_port : Port
changed_port = new_port (record { request_digest = 99; reply = answered 8 } ∷ [])

is_refused :
    (invoke digest_of true (json_object 7) (some (pos 10)) changed_port).1
    ≡ violated (request_changed 0)
unfolding new_port invoke replay get_elem? request_of reject
is_refused = refl

refused-IsFinal_example :
    let after = (invoke digest_of true (json_object 7) (some (pos 10)) changed_port).0 in
    let ran = run_leaf digest_of (returns (some 3)) after in is_step (conclude ran.0 ran.1) ≡ false
refused-IsFinal_example =
    refused-IsFinal digest_of true (json_object 7) (some (pos 10)) changed_port (request_changed 0)
      (returns (some 3)) is_refused
