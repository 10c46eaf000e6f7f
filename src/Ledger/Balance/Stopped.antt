-- ===== src/Ledger/Balance/Stopped.antt =====
-- `confirm_epoch_stopped`, `settle_idle_unknown` and `_settle_lost_results` keep the books, and the
-- first leaves nothing held on the epoch that has stopped.
use mta_runtime_intramind.Base.{
  ℕ, ◌≡◌, refl, sym, ap, ◌∙◌, subst, Bool, true, false, not, ◌&&◌, ◌||◌, Option, none, some, List,
  [], ◌∷◌, arith, ◌==◌, ==→eq, if◌then◌else◌, select, contains, map, Result, ok, ◌>>=◌, OnOk,
  OnOk-map, OnOk-bind, OnOk-if, OnOk-guard, OnOk-raise_if, OnOk-or_raise, Bool-cases, inl, inr,
  OnOk-any,
}
use mta_runtime_intramind.Table.{find, order_by, find-key}
use mta_runtime_intramind.Table.Members.{In, In-select, In-order_by}
use mta_runtime_intramind.Ledger.State.{
  Ledger, Clock, Attempt, Reason, engine_epoch_stopped, engine_idle_verified, engine_recovery,
  result_lost_after_backend_finished, attempt_key, pool_key,
}
use mta_runtime_intramind.Ledger.Attempts.{Joined, join}
use mta_runtime_intramind.Ledger.Reserve.{is_healthy}
use mta_runtime_intramind.Ledger.Stopping.{
  joined_rows, created, of_epoch, keeps_result, to_stop, each_row, settle_stopped_attempt,
  confirm_epoch_stopped, stop_endpoint,
}
use mta_runtime_intramind.Ledger.Evidence.{StopEvidence, is_blank, check_evidence}
use mta_runtime_intramind.Ledger.Lost.{
  clear_directs, is_idle, has_epoch, settle_idle_unknown, is_lost, settle_lost,
}
use mta_runtime_intramind.Ledger.Balance.Invariant.{IsConsistent}
use mta_runtime_intramind.Ledger.Balance.Frame.{Frame-IsConsistent}
use mta_runtime_intramind.Ledger.Balance.Stopping.{
  aside-Frame, HoldsNothing, settle_stopped_attempt-Turned,
}
use mta_runtime_intramind.Ledger.Balance.Turns.{
  joined_key, IsFresh, Turned, each_row-IsConsistent, joined-IsFresh, chosen-IsFresh,
  chosen-Distinct, joined_rows-all,
}

abbrev holds_something : Attempt → Bool
holds_something a = a.compute_held || a.budget_held

-- The attempts that still hold something of the epoch are among the rows that are left.
abbrev AreLeft : Bool → ℕ → ℕ → List Joined → Ledger → Type 0
AreLeft recover pool epoch js s =
    (id : ℕ) (a : Attempt)
    → find attempt_key id s.attempts ≡ some a
    → of_epoch pool epoch a ≡ true
    → holds_something a ≡ true
    → keeps_result recover a ≡ false
    → contains id (map joined_key js) ≡ true

In-contains :
    (j : Joined) (js : List Joined) → In j js → contains (joined_key j) (map joined_key js) ≡ true
In-contains j [] mem = absurd mem
In-contains j (k ∷ js) (inl same) = ground (arith, ap joined_key same)
In-contains j (k ∷ js) (inr mem) = ground (arith, In-contains j js mem)

free_held : (a b : Bool) → a ≡ false → b ≡ false → (a || b) ≡ true → ⊥
free_held a b e f h = ground arith

module _ (c : Clock) (recover : Bool) (pool epoch : ℕ) where
  chosen-AreLeft :
      (s : Ledger)
      → IsConsistent s
      → AreLeft recover pool epoch
          (order_by created (select (to_stop recover pool epoch) (joined_rows s)))
          s
  chosen-AreLeft s v id a e here held kept =
      let (j, (mem, same)) = joined_rows-all s id a v e in
      let to : to_stop recover pool epoch j ≡ true =
        ap (λ x. of_epoch pool epoch x && holds_something x && not (keeps_result recover x)) same
        ∙ rw (here, held, kept) in
      let chosen = order_by created (select (to_stop recover pool epoch) (joined_rows s)) in
      subst (λ k. contains k (map joined_key chosen) ≡ true)
        (ap (λ x. x.attempt_id) same ∙ find-key attempt_key id s.attempts a e)
        (In-contains j chosen
          (In-order_by created j _ (In-select (to_stop recover pool epoch) j _ to mem)))

  turn-AreLeft :
      (j : Joined) (js : List Joined) (s : Ledger)
      → IsConsistent s
      → IsFresh s j
      → AreLeft recover pool epoch (j ∷ js) s
      → OnOk
          (λ t. Turned s j t × AreLeft recover pool epoch js t)
          (settle_stopped_attempt c recover engine_epoch_stopped engine_recovery j s)
  turn-AreLeft j js s v fresh left =
      OnOk-map (λ t. Turned s j t × HoldsNothing (joined_key j) t)
        (λ t. Turned s j t × AreLeft recover pool epoch js t)
        (settle_stopped_attempt c recover engine_epoch_stopped engine_recovery j s)
        (λ t turned. (turned.0, stay t turned.0 turned.1))
        (settle_stopped_attempt-Turned c recover engine_epoch_stopped engine_recovery j s v fresh)
    where
      stay :
          (t : Ledger)
          → Turned s j t
          → HoldsNothing (joined_key j) t
          → AreLeft recover pool epoch js t
      stay t turned nothing id a e here held kept = elim (Bool-cases (joined_key j == id)) [
        | inl same ↦
            let free =
              nothing a
                (ap (λ k. find attempt_key k t.attempts) (==→eq (joined_key j) id same) ∙ e) in
            absurd (free_held a.compute_held a.budget_held free.0 free.1 held)
        | inr other ↦ ground (arith, left id a (sym (turned.others id other) ∙ e) here held kept)
      ]

  -- No attempt of the epoch holds compute or budget, but for one whose result may still be committed.
  abbrev pub IsStopped : Ledger → Type 0
  IsStopped s =
      (id : ℕ) (a : Attempt)
      → find attempt_key id s.attempts ≡ some a
      → of_epoch pool epoch a ≡ true
      → keeps_result recover a ≡ false
      → (a.compute_held ≡ false) × (a.budget_held ≡ false)

  none_left : (s : Ledger) → AreLeft recover pool epoch [] s → IsStopped s
  none_left s left id a e here kept = elim (Bool-cases (holds_something a)) [
    | inl held ↦ absurd (cc (left id a e here held kept))
    | inr free ↦ (ground (arith, free), ground (arith, free))
  ]

  -- Where `confirm_epoch_stopped` returns, the books are consistent and nothing is held on the
  -- epoch any more, except for the budget of an attempt whose owner still has a result to commit,
  -- where the work is to be recovered.
  pub confirm_epoch_stopped-IsStopped :
      (evidence : StopEvidence) (note : ℕ) (s : Ledger)
      → IsConsistent s
      → OnOk
          (λ x. IsConsistent x.0 × IsStopped x.0)
          (confirm_epoch_stopped c pool epoch evidence recover note s)
  unfolding confirm_epoch_stopped
  confirm_epoch_stopped-IsStopped evidence note s v =
      let Q = λ (x : Ledger × ℕ). IsConsistent x.0 × IsStopped x.0 in
      OnOk-raise_if Q (is_blank evidence) _ _ λ _.
        OnOk-bind (λ _. Unit {0}) Q (check_evidence recover pool epoch evidence) _
          (OnOk-any (check_evidence recover pool epoch evidence))
          λ _ _. OnOk-or_raise Q (find pool_key pool s.pools) _ _ λ p e.
            OnOk-guard Q (p.engine_epoch == epoch) _ _ λ _.
              OnOk-raise_if Q (recover && is_healthy p.health) _ _ λ _.
                let u = stop_endpoint c recover pool epoch s in
                let w = Frame-IsConsistent (aside-Frame s u refl refl refl refl) v in
                let chosen =
                  order_by created (select (to_stop recover pool epoch) (joined_rows u)) in
                OnOk-bind (λ t. IsConsistent t × AreLeft recover pool epoch [] t) Q
                  (each_row (settle_stopped_attempt c recover engine_epoch_stopped engine_recovery)
                    chosen u)
                  _
                  (each_row-IsConsistent
                    (settle_stopped_attempt c recover engine_epoch_stopped engine_recovery)
                    (AreLeft recover pool epoch) turn-AreLeft chosen u w
                    (chosen-IsFresh u (to_stop recover pool epoch))
                    (chosen-Distinct u (to_stop recover pool epoch)) (chosen-AreLeft u w))
                  λ t done. (
                    Frame-IsConsistent (aside-Frame t _ refl refl refl refl) done.0,
                    λ id a found here kept. none_left t done.1 id a found here kept,
                  )

module _ (c : Clock) (error retry : Reason) where
  turn-IsConsistent :
      (j : Joined) (js : List Joined) (s : Ledger)
      → IsConsistent s
      → IsFresh s j
      → Unit {0}
      → OnOk (λ t. Turned s j t × Unit {0}) (settle_stopped_attempt c true error retry j s)
  turn-IsConsistent j js s v fresh left =
      OnOk-map (λ t. Turned s j t × HoldsNothing (joined_key j) t) (λ t. Turned s j t × Unit)
        (settle_stopped_attempt c true error retry j s) (λ t turned. (turned.0, tt))
        (settle_stopped_attempt-Turned c true error retry j s v fresh)

pub settle_idle_unknown-IsConsistent :
    (c : Clock) (pool epoch since : ℕ) (ids : List ℕ) (s : Ledger)
    → IsConsistent s
    → OnOk (λ x. IsConsistent x.0) (settle_idle_unknown c pool epoch since ids s)
unfolding settle_idle_unknown
settle_idle_unknown-IsConsistent c pool epoch since ids s v =
    let Q = λ (x : Ledger × ℕ). IsConsistent x.0 in
    OnOk-if Q (not (has_epoch (find pool_key pool s.pools) epoch)) _ _ (λ _. v)
      λ _.
        let u = clear_directs c pool epoch since ids s in
        let p = is_idle pool epoch since ids in
        let idle = order_by created (select p (joined_rows u)) in
        let turn = settle_stopped_attempt c true engine_idle_verified engine_recovery in
        OnOk-bind (λ t. IsConsistent t × Unit {0}) Q (each_row turn idle u) _
          (each_row-IsConsistent turn (λ js t. Unit {0})
            (turn-IsConsistent c engine_idle_verified engine_recovery) idle u
            (Frame-IsConsistent (aside-Frame s u refl refl refl refl) v) (chosen-IsFresh u p)
            (chosen-Distinct u p) tt)
          λ t done. done.0

pub settle_lost-IsConsistent :
    (c : Clock) (locked : Bool) (id : ℕ) (s : Ledger)
    → IsConsistent s
    → OnOk (λ x. IsConsistent x.0) (settle_lost c locked id s)
unfolding settle_lost
settle_lost-IsConsistent c locked id s v = found (join s id) refl
  where
    Q : Ledger × Bool → Type 0
    Q x = IsConsistent x.0

    turn : Joined → Result (Ledger × Bool)
    turn j = if locked || not (is_lost c s j.attempt) then ok (s, false) else (do
      t ←
          settle_stopped_attempt c true result_lost_after_backend_finished
            result_lost_after_backend_finished j s
      ok (t, true))

    found :
        (o : Option Joined)
        → join s id ≡ o
        → OnOk Q
            (elim o as (λ x. Result (Ledger × Bool)) [ none ↦ ok (s, false) | some j ↦ turn j ])
    found none e = v
    found (some j) e =
        OnOk-if Q (locked || not (is_lost c s j.attempt)) _ _ (λ _. v)
          λ _.
            OnOk-bind (λ t. Turned s j t × HoldsNothing (joined_key j) t) Q _ _
              (settle_stopped_attempt-Turned c true result_lost_after_backend_finished
                result_lost_after_backend_finished j s v (joined-IsFresh s id j e))
              λ t turned. turned.0.consistent
