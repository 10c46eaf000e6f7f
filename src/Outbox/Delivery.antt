-- ===== src/Outbox/Delivery.antt =====
-- store.py: `claim_events`, `delivered` and `defer_event`. Each is one UPDATE of runtime_outbox.
use mta_runtime_intramind.Base.{
  ℕ, ◌+◌, Bool, true, false, ◌&&◌, Option, none, some, List, [], ◌∷◌, ltb, leb, ◌==◌, if◌then◌else◌,
  any, count, select, Result, ok, err, ◌>>◌, guard, value_error, retry_delay_out_of_range,
}
use mta_runtime_intramind.Table.{update_where}
use mta_runtime_intramind.Ledger.State.{Clock, Event, EventId}
use mta_runtime_intramind.Ledger.Events.{same_event}
use mta_runtime_intramind.Ledger.Attempts.{names}
use mta_runtime_intramind.Ledger.Selection.{take}
use mta_runtime_intramind.Ledger.Settle.{is_none}

-- `lease_expires_at IS NULL OR lease_expires_at<now()`
abbrev pub lease_over : Option ℕ → ℕ → Bool
lease_over none now = true
lease_over (some until) now = ltb until now

-- `lease_expires_at>now()`, which NULL does not satisfy
abbrev pub leased : Option ℕ → ℕ → Bool
leased none now = false
leased (some until) now = ltb now until

abbrev pub claimable : Clock → Event → Bool
claimable c e =
    is_none e.delivered_at
    && leb e.available_at c.transaction
    && lease_over e.lease_expires_at c.transaction

-- `ORDER BY created_at`
unfoldable pub place_event : Event → List Event → List Event
place_event e [] = e ∷ []
place_event e (x ∷ xs) = if leb e.created_at x.created_at then e ∷ x ∷ xs else x ∷ place_event e xs

unfoldable pub oldest_first : List Event → List Event
unfolding place_event
oldest_first [] = []
oldest_first (e ∷ es) = place_event e (oldest_first es)

abbrev pub claim_row : Clock → ℕ → Event → Event
claim_row c owner e = record e {
  owner_id = some owner;
  lease_expires_at = some (c.transaction + 30000000);
  deliveries = e.deliveries + 1;
}

-- `event_id IN (…)`
abbrev pub is_chosen : List Event → Event → Bool
is_chosen chosen e = any (λ x. same_event x.event_id e.event_id) chosen

-- The subquery, with its LIMIT.
unfoldable pub chosen_events : Clock → ℕ → List Event → List Event
unfolding oldest_first take
chosen_events c limit outbox = take limit (oldest_first (select (claimable c) outbox))

-- `claim_events`
unfoldable pub claim_events : Clock → ℕ → ℕ → List Event → List Event
unfolding chosen_events
claim_events c owner limit outbox =
    update_where (is_chosen (chosen_events c limit outbox)) (claim_row c owner) outbox

-- The WHERE of an acknowledgement: the claim is the current one.
unfoldable pub is_current : Clock → EventId → ℕ → ℕ → Event → Bool
is_current c id owner number e =
    same_event e.event_id id
    && names e.owner_id owner
    && e.deliveries == number
    && is_none e.delivered_at
    && leased e.lease_expires_at c.transaction

abbrev pub acknowledge : Clock → Event → Event
acknowledge c e = record e { delivered_at = some c.transaction }

-- `delivered`, with what it returns
unfoldable pub delivered : Clock → EventId → ℕ → ℕ → List Event → List Event × Bool
unfolding is_current
delivered c id owner number outbox = (
  update_where (is_current c id owner number) (acknowledge c) outbox,
  count (is_current c id owner number) outbox == 1,
)

abbrev pub release : Clock → ℕ → Event → Event
release c delay e = record e {
  available_at = c.transaction + delay;
  owner_id = none;
  lease_expires_at = none;
}

-- `defer_event`; the delay is counted in microseconds
unfoldable pub defer_event : Clock → EventId → ℕ → ℕ → ℕ → List Event → Result (List Event × Bool)
unfolding is_current
defer_event c id owner number delay outbox = do
  guard (leb 1000000 delay && leb delay 300000000) (value_error retry_delay_out_of_range)
  ok (
    update_where (is_current c id owner number) (release c delay) outbox,
    count (is_current c id owner number) outbox == 1,
  )

pub data Call : Type 0 where
  -- owner and limit
  claims : ℕ → ℕ → Call
  -- event, owner and delivery
  acknowledges : EventId → ℕ → ℕ → Call
  -- event, owner, delivery and delay
  defers : EventId → ℕ → ℕ → ℕ → Call

abbrev pub rows_of : List Event → Result (List Event × Bool) → List Event
rows_of old (ok r) = r.0
rows_of old (err e) = old

unfoldable pub deliver : Clock → Call → List Event → List Event
unfolding claim_events delivered defer_event
deliver c (claims owner limit) outbox = claim_events c owner limit outbox
deliver c (acknowledges id owner number) outbox = (delivered c id owner number outbox).0
deliver c (defers id owner number delay) outbox =
    rows_of outbox (defer_event c id owner number delay outbox)

unfoldable pub deliver_each : List (Clock × Call) → List Event → List Event
deliver_each [] outbox = outbox
deliver_each ((c, call) ∷ calls) outbox = deliver_each calls (deliver c call outbox)
