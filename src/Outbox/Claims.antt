-- ===== src/Outbox/Claims.antt =====
-- What a claim of an event means, through every sequence of claims, acknowledgements and deferrals.
use mta_runtime_intramind.Base.{
  ℕ, ◌≤◌, ◌≡◌, ◌⊎◌, inl, inr, refl, ap, ◌∙◌, Bool, true, false, ◌&&◌, none, some, List, [], ◌∷◌,
  arith, leb, ◌==◌, if_intro, count, Result, ok, err, OnOk, OnOk-guard, guard, value_error,
  retry_delay_out_of_range, ◌>>◌,
}
use mta_runtime_intramind.Table.{update_where}
use mta_runtime_intramind.Ledger.State.{Clock, Event, EventId}
use mta_runtime_intramind.Ledger.Events.{same_event}
use mta_runtime_intramind.Ledger.Settle.{is_none}
use mta_runtime_intramind.Outbox.Delivery.{
  claim_row, is_chosen, chosen_events, claim_events, is_current, acknowledge, delivered, release,
  defer_event, Call, claims, acknowledges, defers, rows_of, deliver, deliver_each,
}

-- An event under one delivery number has one owner, until it is released; the number never falls,
-- and an acknowledgement is final.
pub record EventStep (e f : Event) : Type 0 where
  pub event : f.event_id ≡ e.event_id
  pub numbered : e.deliveries ≤ f.deliveries
  pub owned : f.deliveries ≡ e.deliveries → (f.owner_id ≡ e.owner_id) ⊎ (f.owner_id ≡ none)
  pub final : (at : ℕ) → e.delivered_at ≡ some at → f.delivered_at ≡ some at

abbrev pub AllSteps : List Event → List Event → Type 0
AllSteps [] [] = Unit
AllSteps [] (f ∷ fs) = ⊥
AllSteps (e ∷ es) [] = ⊥
AllSteps (e ∷ es) (f ∷ fs) = EventStep e f × AllSteps es fs

EventStep-refl : (e : Event) → EventStep e e
EventStep-refl e = record {
  event = refl;
  numbered = omega arith;
  owned = λ h. inl refl;
  final = λ at h. h;
}

EventStep-trans : (e f g : Event) → EventStep e f → EventStep f g → EventStep e g
EventStep-trans e f g p q = record {
  event = q.event ∙ p.event;
  numbered = omega (arith, p.numbered, q.numbered);
  owned = λ h.
      after (q.owned (omega (arith, p.numbered, q.numbered, h)))
        (p.owned (omega (arith, p.numbered, q.numbered, h)));
  final = λ at h. q.final at (p.final at h);
}
  where
    after :
        (g.owner_id ≡ f.owner_id) ⊎ (g.owner_id ≡ none)
        → (f.owner_id ≡ e.owner_id) ⊎ (f.owner_id ≡ none)
        → (g.owner_id ≡ e.owner_id) ⊎ (g.owner_id ≡ none)
    after (inr x) y = inr x
    after (inl x) (inl y) = inl (x ∙ y)
    after (inl x) (inr y) = inr (x ∙ y)

AllSteps-refl : (es : List Event) → AllSteps es es
AllSteps-refl [] = tt
AllSteps-refl (e ∷ es) = (EventStep-refl e, AllSteps-refl es)

AllSteps-trans : (es fs gs : List Event) → AllSteps es fs → AllSteps fs gs → AllSteps es gs
AllSteps-trans [] [] [] p q = tt
AllSteps-trans [] [] (g ∷ gs) p q = absurd q
AllSteps-trans [] (f ∷ fs) gs p q = absurd p
AllSteps-trans (e ∷ es) [] gs p q = absurd p
AllSteps-trans (e ∷ es) (f ∷ fs) [] p q = absurd q
AllSteps-trans (e ∷ es) (f ∷ fs) (g ∷ gs) p q =
    (EventStep-trans e f g p.0 q.0, AllSteps-trans es fs gs p.1 q.1)

update_where-AllSteps :
    (p : Event → Bool) (f : Event → Event) (es : List Event)
    → ((e : Event) → p e ≡ true → EventStep e (f e))
    → AllSteps es (update_where p f es)
unfolding update_where
update_where-AllSteps p f [] step = tt
update_where-AllSteps p f (e ∷ es) step = (
  if_intro (EventStep e) (p e) (f e) e (step e) (λ _. EventStep-refl e),
  update_where-AllSteps p f es step,
)

claim_row-EventStep : (c : Clock) (owner : ℕ) (e : Event) → EventStep e (claim_row c owner e)
claim_row-EventStep c owner e = record {
  event = refl;
  numbered = omega arith;
  owned = λ h. absurd (omega (arith, h));
  final = λ at h. h;
}

current_pending :
    (c : Clock) (id : EventId) (owner number : ℕ) (e : Event)
    → is_current c id owner number e ≡ true
    → is_none e.delivered_at ≡ true
unfolding is_current
current_pending c id owner number e h = ground arith

acknowledge-EventStep :
    (c : Clock) (e : Event) → is_none e.delivered_at ≡ true → EventStep e (acknowledge c e)
acknowledge-EventStep c e pending = record {
  event = refl;
  numbered = omega arith;
  owned = λ h. inl refl;
  final = λ at h. absurd (cc (ap is_none h, pending));
}

release-EventStep : (c : Clock) (delay : ℕ) (e : Event) → EventStep e (release c delay e)
release-EventStep c delay e = record {
  event = refl;
  numbered = omega arith;
  owned = λ h. inr refl;
  final = λ at h. h;
}

rows_of-AllSteps :
    (old : List Event) (m : Result (List Event × Bool))
    → OnOk (λ r. AllSteps old r.0) m
    → AllSteps old (rows_of old m)
rows_of-AllSteps old (ok r) h = h
rows_of-AllSteps old (err e) h = AllSteps-refl old

deliver-AllSteps : (c : Clock) (call : Call) (es : List Event) → AllSteps es (deliver c call es)
unfolding deliver claim_events delivered defer_event
deliver-AllSteps c (claims owner limit) es =
    update_where-AllSteps (is_chosen (chosen_events c limit es)) (claim_row c owner) es
      (λ e _. claim_row-EventStep c owner e)
deliver-AllSteps c (acknowledges id owner number) es =
    update_where-AllSteps (is_current c id owner number) (acknowledge c) es
      (λ e h. acknowledge-EventStep c e (current_pending c id owner number e h))
deliver-AllSteps c (defers id owner number delay) es =
    rows_of-AllSteps es (defer_event c id owner number delay es) (
      OnOk-guard (λ r. AllSteps es r.0) (leb 1000000 delay && leb delay 300000000) _ _
        λ _.
          update_where-AllSteps (is_current c id owner number) (release c delay) es
            (λ e _. release-EventStep c delay e))

-- Through every sequence of claims, acknowledgements and deferrals no event is lost or changes its
-- identity, its delivery number never falls, an acknowledgement is final, and under one delivery
-- number an event keeps its owner until it is released: a second owner has a higher number.
pub deliver_each-AllSteps :
    (calls : List (Clock × Call)) (outbox : List Event)
    → AllSteps outbox (deliver_each calls outbox)
unfolding deliver_each
deliver_each-AllSteps [] outbox = AllSteps-refl outbox
deliver_each-AllSteps ((c, call) ∷ calls) outbox =
    AllSteps-trans outbox (deliver c call outbox) _ (deliver-AllSteps c call outbox)
      (deliver_each-AllSteps calls (deliver c call outbox))

-- No row with this identity has this delivery number.
abbrev pub IsStale : EventId → ℕ → List Event → Type 0
IsStale id number [] = Unit
IsStale id number (e ∷ es) =
    ((same_event e.event_id id && e.deliveries == number) ≡ false) × IsStale id number es

stale_row :
    (c : Clock) (id : EventId) (owner number : ℕ) (e : Event)
    → (same_event e.event_id id && e.deliveries == number) ≡ false
    → is_current c id owner number e ≡ false
unfolding is_current
stale_row c id owner number e h = ground arith

stale_rows :
    (c : Clock) (id : EventId) (owner number : ℕ) (f : Event → Event) (es : List Event)
    → IsStale id number es
    → (update_where (is_current c id owner number) f es ≡ es)
      × (count (is_current c id owner number) es ≡ 0)
unfolding update_where
stale_rows c id owner number f [] h = (refl, refl)
stale_rows c id owner number f (e ∷ es) h =
    let (rows, none_counted) = stale_rows c id owner number f es h.1 in
    let stale = stale_row c id owner number e h.0 in
    (rw (stale, rows) refl, rw (stale, none_counted) refl)

-- An acknowledgement or a deferral under a delivery number that the event does not have changes
-- nothing: the first answers that it was not taken, and so does the second where it does not raise.
pub stale_delivery_refused :
    (c : Clock) (id : EventId) (owner number delay : ℕ) (outbox : List Event)
    → IsStale id number outbox
    → (delivered c id owner number outbox ≡ (outbox, false))
      × (defer_event c id owner number delay outbox ≡ (
          guard (leb 1000000 delay && leb delay 300000000) (value_error retry_delay_out_of_range)
          >> ok (outbox, false)))
unfolding delivered defer_event
stale_delivery_refused c id owner number delay outbox h =
    let acknowledged = stale_rows c id owner number (acknowledge c) outbox h in
    let deferred = stale_rows c id owner number (release c delay) outbox h in
    (rw (acknowledged.0, acknowledged.1) refl, rw (deferred.0, deferred.1) refl)
