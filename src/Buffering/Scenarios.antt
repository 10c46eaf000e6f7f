-- ===== src/Buffering/Scenarios.antt =====
-- buffering.py: two inputs of one partition, of which the first batch has failed.
use mta_runtime_intramind.Base.{
  ℕ, ◌≡◌, refl, true, decides_refl, subst, map, none, some, [], ◌∷◌, ok,
}
use mta_runtime_intramind.Contracts.Operation.{Artifact, Artifact-discrete}
use mta_runtime_intramind.Table.{find, insert, place_row, order_by}
use mta_runtime_intramind.Ledger.State.{Clock, buffer_dispatch_deadline_exceeded}
use mta_runtime_intramind.Ledger.Reconcile.{take}
use mta_runtime_intramind.Buffering.State.{
  BufferedSubmission, Definition, Definition-discrete, preparing, failed, Batch, Item, Buffer,
}
use mta_runtime_intramind.Buffering.Append.{append, append_new, find_item, is_full}
use mta_runtime_intramind.Buffering.Seal.{
  unfinished, may_open, first_due, selected, candidates, is_like, seal_item, open_batch,
  open_batches, seal,
}
use mta_runtime_intramind.Buffering.Exclusive.{IsExclusive}
use mta_runtime_intramind.Buffering.Histories.{
  appends, seals, Reachable, start, then_step, reached-IsExclusive,
}
use mta_runtime_intramind.Buffering.Repeats.{append-again}

abbrev item_digest : ℕ → ℕ → ℕ
item_digest tenant key = key

abbrev batch_digest : ℕ → ℕ
batch_digest item = item

abbrev now : Clock
now = record { transaction = 100; database = 100; process = 100 }

abbrev document : Artifact
document = record { key = []; sha256 = 5; size = 10; content_type = 1 }

abbrev task : Definition
task = record {
  buffering = some (record {
    max_batch_size = 8;
    max_delay = 60;
    max_item_bytes = none;
    max_pending_per_tenant = 4;
    max_pending_per_partition = 4;
  });
  deadline = 30;
  rest = 0;
  control_queue = 3;
}

abbrev request : BufferedSubmission
request = record {
  task_type = 1;
  submission_key = 2;
  partition_key = 6;
  input = document;
  configuration = document;
  delay = 0;
  batch_size = 4;
}

abbrev first_item : Item
first_item = record {
  ordinal = 0;
  item_id = 1;
  tenant_id = 9;
  task_type = 1;
  partition_key = 6;
  submission_key = 1;
  input = document;
  configuration = document;
  definition = task;
  batch_size = 4;
  due_at = 50;
  batch_id = some 1;
}

abbrev second_item : Item
second_item = record first_item {
  ordinal = 1;
  item_id = 2;
  submission_key = 2;
  due_at = 100;
  batch_id = none;
}

abbrev first_batch : Batch
first_batch = record {
  batch_id = 1;
  tenant_id = 9;
  task_type = 1;
  partition_key = 6;
  state = failed;
  definition = task;
  configuration = document;
  deadline = 90;
  retry_at = 100;
  terminal_reason = some buffer_dispatch_deadline_exceeded;
}

abbrev second_batch : Batch
second_batch = record first_batch {
  batch_id = 2;
  state = preparing;
  deadline = 130;
  terminal_reason = none;
}

abbrev empty : Buffer
empty = record {
  max_pending = 10;
  roots = [];
  items = first_item ∷ [];
  batches = first_batch ∷ [];
  next_ordinal = 1;
}

abbrev waiting : Buffer
waiting = record empty { items = second_item ∷ first_item ∷ []; next_ordinal = 2 }

abbrev sealed : Buffer
sealed = record waiting {
  items = record second_item { batch_id = some 2 } ∷ first_item ∷ [];
  batches = second_batch ∷ first_batch ∷ [];
}

accepted : append item_digest now 9 3 request task empty ≡ ok (waiting, 2)
unfolding append append_new find_item is_full find insert
accepted = refl

like : is_like second_item second_item ≡ true
like =
    rw
      (
        decides_refl (Artifact-discrete document document),
        decides_refl (Definition-discrete task task),
      )
      refl

chosen : selected second_item (second_item ∷ []) ≡ 2 ∷ []
unfolding selected
chosen = rw (like) refl

opened : seal batch_digest now 1 waiting ≡ ok (sealed, second_batch ∷ [])
unfolding seal unfinished open_batches open_batch first_due may_open candidates find insert take
    order_by place_row
opened =
    subst
      (λ ids.
        seal batch_digest now 1 waiting
        ≡ ok (record sealed { items = map (seal_item 2 ids) waiting.items }, second_batch ∷ []))
      chosen refl

path : Reachable item_digest batch_digest empty sealed
path =
    then_step (then_step start (appends now 9 3 request task (waiting, 2) accepted))
      (seals now 1 (sealed, second_batch ∷ []) opened)

reached-IsExclusive_example : IsExclusive sealed
reached-IsExclusive_example = reached-IsExclusive item_digest batch_digest path (tt, tt)

append-again_example :
    append item_digest now 9 4 (record request { delay = 5 }) (record task { deadline = 1 }) waiting
    ≡ ok (waiting, 2)
append-again_example =
    append-again item_digest now now 9 3 4 request (record request { delay = 5 }) task
      (record task { deadline = 1 }) empty waiting 2 accepted refl refl refl refl
