-- ===== src/Outbox/Scenarios.antt =====
-- Two owners and one event of the outbox.
use mta_runtime_intramind.Base.{
  ◌≡◌, refl, false, some, List, [], ◌∷◌, ok, guard, value_error, retry_delay_out_of_range, ◌&&◌,
  leb, ◌>>◌,
}
use mta_runtime_intramind.Ledger.State.{Clock, Event, start_workflow}
use mta_runtime_intramind.Ledger.Events.{new_event}
use mta_runtime_intramind.Outbox.Delivery.{
  Call, claims, acknowledges, defers, delivered, defer_event, deliver_each,
}
use mta_runtime_intramind.Outbox.Claims.{AllSteps, deliver_each-AllSteps, stale_delivery_refused}

abbrev early : Clock
early = record { transaction = 1000; database = 1000; process = 1000 }

abbrev late : Clock
late = record { transaction = 40000000; database = 40000000; process = 40000000 }

abbrev event : Event
event = new_event early (start_workflow 1) 1

-- Owner 20 claimed it first, and owner 21 after the lease was over.
abbrev taken_over : Event
taken_over = record event { owner_id = some 21; lease_expires_at = some 70000000; deliveries = 2 }

abbrev calls : List (Clock × Call)
calls =
    (early, claims 20 32)
    ∷ (late, claims 21 32)
    ∷ (late, acknowledges (start_workflow 1) 20 1)
    ∷ (late, defers (start_workflow 1) 21 2 5000000)
    ∷ []

deliver_each-AllSteps_example : AllSteps (event ∷ []) (deliver_each calls (event ∷ []))
deliver_each-AllSteps_example = deliver_each-AllSteps calls (event ∷ [])

stale_delivery_refused_example :
    (delivered late (start_workflow 1) 20 1 (taken_over ∷ []) ≡ (taken_over ∷ [], false))
    × (defer_event late (start_workflow 1) 20 1 2000000 (taken_over ∷ []) ≡ (
        guard (leb 1000000 2000000 && leb 2000000 300000000) (value_error retry_delay_out_of_range)
        >> ok (taken_over ∷ [], false)))
stale_delivery_refused_example =
    stale_delivery_refused late (start_workflow 1) 20 1 2000000 (taken_over ∷ []) (refl, tt)
