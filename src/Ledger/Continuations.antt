-- ===== src/Ledger/Continuations.antt =====
-- The ledger of Ledger/Scenarios as `reserve_next` and `update_target` go on with it.
use mta_runtime_intramind.Base.{
  ◌≡◌, refl, some, [], ◌∷◌, err, runtime_conflict, stale_attempt_ownership,
}
use mta_runtime_intramind.Ledger.State.{Ledger, AttemptState}
use mta_runtime_intramind.Table.{find, update}
use mta_runtime_intramind.Ledger.Attempts.{Reservation, mark_send}
use mta_runtime_intramind.Ledger.Reserve.{
  Draw, new_attempt, execute, serve, reservation, reserve_next, reserve_from, consider_each,
  consider, consider_row, consider_root, consider_rows, against_budget, within_budget, exhausted,
  unless_exhausted, grant, last_number, insert_grant,
}
use mta_runtime_intramind.Ledger.Selection.{
  candidates, sorted_candidates, take, eligible, turn, tenant_served, place, before,
}
use mta_runtime_intramind.Ledger.Events.{expire_operation}
use mta_runtime_intramind.Ledger.History.{marks_send, perform, installed}
use mta_runtime_intramind.Ledger.Progress.Superseded.{reserve_next-Supersedes}
use mta_runtime_intramind.Ledger.Overlap.{run_statements}
use mta_runtime_intramind.Ledger.Overlapping.{
  IsOverwritten, IsCounted, overlapping, begin, overlapping-IsOverwritten, run_statements-IsCounted,
}
use mta_runtime_intramind.Base.Int.{pos}
use mta_runtime_intramind.Base.{arith, true, ok}
use mta_runtime_intramind.Ledger.Budgets.{budget_of}
use mta_runtime_intramind.Ledger.Progress.Sendable.{returns, reserve_next-mark_send}
use mta_runtime_intramind.Ledger.Engine.{read_envelope}
use mta_runtime_intramind.Ledger.Scenarios.{
  sha256, clock, pool, draw, held, empty_ledger, waiting_ledger, reserved_ledger, root_row,
  operation_row, attempt_row,
}

-- What `reserve_next` makes of the waiting operation.
abbrev served_ledger : Ledger
served_ledger = record reserved_ledger { roots = serve 1000 root_row ∷ [] }

is_granted : reserve_next clock 10 draw waiting_ledger ≡ ok (served_ledger, some held)
unfolding reserve_next reserve_from candidates sorted_candidates take eligible turn tenant_served
    place before consider_each consider_row consider_root consider_rows against_budget within_budget
    exhausted unless_exhausted grant last_number insert_grant expire_operation budget_of consider
    find update installed
is_granted = refl

reserve_next-mark_send_example : returns (mark_send clock held served_ledger) ≡ true
reserve_next-mark_send_example =
    reserve_next-mark_send clock clock 10 draw waiting_ledger served_ledger held is_granted
      (omega arith) (omega arith) (omega arith)

-- The owner's lease ran out, the attempt was lost, and the operation is reserved again.
abbrev draw_again : Draw
draw_again = record draw { attempt_id = 31 }

abbrev expired_ledger : Ledger
expired_ledger = record waiting_ledger {
  attempts = record attempt_row { state = AttemptState.failed } ∷ [];
}

abbrev held_again : Reservation
held_again = reservation clock pool draw_again 2 operation_row root_row

abbrev replaced_ledger : Ledger
replaced_ledger = record served_ledger {
  operations = execute 31 operation_row ∷ [];
  attempts =
      new_attempt clock pool draw_again 2 operation_row
      ∷ record attempt_row { state = AttemptState.failed }
      ∷ [];
}

is_granted_again :
    reserve_next clock 10 draw_again expired_ledger ≡ ok (replaced_ledger, some held_again)
unfolding reserve_next reserve_from candidates sorted_candidates take eligible turn tenant_served
    place before consider_each consider_row consider_root consider_rows against_budget within_budget
    exhausted unless_exhausted grant last_number insert_grant expire_operation budget_of consider
    find update installed
is_granted_again = refl

reserve_next-Supersedes_example :
    perform sha256 clock (marks_send held) replaced_ledger
    ≡ err (runtime_conflict stale_attempt_ownership)
unfolding find
reserve_next-Supersedes_example =
    reserve_next-Supersedes sha256 clock clock 10 draw_again expired_ledger replaced_ledger
      held_again held (marks_send held) (record attempt_row { state = AttemptState.failed })
      (new_attempt clock pool draw_again 2 operation_row) is_granted_again refl refl refl
      (omega arith) refl

-- Two controllers that have read the same version.
overlapping-IsOverwritten_example :
    IsOverwritten 10 1 9 8 3 1 pool empty_ledger
      (run_statements (overlapping 10 (pos 3) (pos 1) 1 9 8) (begin empty_ledger)).ledger
unfolding find read_envelope installed
overlapping-IsOverwritten_example =
    overlapping-IsOverwritten 10 (pos 3) (pos 1) 1 9 8 empty_ledger pool 3 1 refl refl refl

run_statements-IsCounted_example :
    IsCounted 10 empty_ledger pool
      (run_statements (overlapping 10 (pos 3) (pos 1) 1 9 8) (begin empty_ledger)).ledger
unfolding find installed
run_statements-IsCounted_example =
    run_statements-IsCounted 10 (overlapping 10 (pos 3) (pos 1) 1 9 8) empty_ledger pool refl
      (omega arith)
