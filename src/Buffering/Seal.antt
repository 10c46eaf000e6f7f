-- ===== src/Buffering/Seal.antt =====
-- buffering.py: `seal`, and what `dispatch` and `tick` write. `batch_digest` stands for the SHA-256
-- of a batch's identity.
use mta_runtime_intramind.Base.{
  ℕ, ◌+◌, ◌-◌, suc, zero, Bool, false, not, ◌&&◌, ◌||◌, Option, none, some, List, [], ◌∷◌, ◌++◌,
  ltb, leb, ◌==◌, if◌then◌else◌, decides, select, any, contains, length, map, Result, ok, ◌>>=◌,
  ◌>>◌, guard, or_raise, integrity_error, runtime_conflict, value_error, pump_limit_out_of_range,
  batch_without_inputs,
}
use mta_runtime_intramind.Contracts.Operation.{Artifact-discrete}
use mta_runtime_intramind.Table.{insert, update, order_by}
use mta_runtime_intramind.Ledger.State.{Clock, Root, buffer_dispatch_deadline_exceeded}
use mta_runtime_intramind.Ledger.Reconcile.{take}
use mta_runtime_intramind.Buffering.State.{
  Definition-discrete, preparing, submitted, failed, Batch, Item, Buffer, batch_key, is_preparing,
  is_submitted, is_sealed, root_runs, no_root,
}

abbrev pub due_column : Item → ℕ
due_column i = i.due_at

abbrev pub ordinal_column : Item → ℕ
ordinal_column i = i.ordinal

abbrev pub retry_column : Batch → ℕ
retry_column b = b.retry_at

abbrev pub is_retried : Clock → Batch → Bool
is_retried c b = is_preparing b.state && leb b.retry_at c.database

-- The batches that an earlier process left, by the time of their retry and their identity.
unfoldable pub unfinished : Clock → ℕ → List Batch → List Batch
unfolding order_by take
unfinished c limit batches =
    take limit (order_by retry_column (order_by batch_key (select (is_retried c) batches)))

-- A batch that has not been submitted, or whose root has not ended or does not exist yet.
abbrev pub is_active : List Root → Batch → Bool
is_active roots b =
    is_preparing b.state
    || (is_submitted b.state && (root_runs roots b.batch_id || no_root roots b.batch_id))

abbrev pub shares_partition : Item → Item → Bool
shares_partition i j =
    j.tenant_id == i.tenant_id && j.task_type == i.task_type && j.partition_key == i.partition_key

abbrev pub in_partition_of : Item → Batch → Bool
in_partition_of i b =
    b.tenant_id == i.tenant_id && b.task_type == i.task_type && b.partition_key == i.partition_key

abbrev pub blocks : List Root → Item → Batch → Bool
blocks roots i b = in_partition_of i b && is_active roots b

abbrev pub is_older : Item → Item → Bool
is_older i older = shares_partition i older && not (is_sealed older) && ltb older.ordinal i.ordinal

-- The item may open a batch: it is due, its partition is idle, and it is the partition's oldest.
unfoldable pub may_open : Clock → Buffer → Item → Bool
may_open c s i =
    not (is_sealed i)
    && leb i.due_at c.database
    && not (any (blocks s.roots i) s.batches)
    && not (any (is_older i) s.items)

abbrev pub head : List Item → Option Item
head [] = none
head (i ∷ is) = some i

-- `ORDER BY i.due_at,i.ordinal LIMIT 1`
unfoldable pub first_due : Clock → Buffer → Option Item
unfolding may_open order_by
first_due c s = head (order_by due_column (order_by ordinal_column (select (may_open c s) s.items)))

abbrev pub is_like : Item → Item → Bool
is_like first i =
    decides (Artifact-discrete i.configuration first.configuration)
    && decides (Definition-discrete i.definition first.definition)
    && i.batch_size == first.batch_size

-- The loop over the candidates, which stops at the first that was accepted under other terms.
unfoldable pub selected : Item → List Item → List ℕ
selected first [] = []
selected first (i ∷ is) =
    let rest = selected first is in if is_like first i then i.item_id ∷ rest else []

unfoldable pub candidates : Item → List Item → List Item
unfolding take order_by
candidates first items =
    take first.batch_size
      (order_by ordinal_column (select (λ i. shares_partition first i && not (is_sealed i)) items))

abbrev pub new_batch : Clock → ℕ → Item → Batch
new_batch c id first = record {
  batch_id = id;
  tenant_id = first.tenant_id;
  task_type = first.task_type;
  partition_key = first.partition_key;
  state = preparing;
  definition = first.definition;
  configuration = first.configuration;
  deadline = c.database + first.definition.deadline;
  retry_at = c.transaction;
  terminal_reason = none;
}

abbrev pub seal_item : ℕ → List ℕ → Item → Item
seal_item id ids i = if contains i.item_id ids then record i { batch_id = some id } else i

module _ (batch_digest : ℕ → ℕ) where
  -- The batch that a first item opens.
  unfoldable pub open_batch : Clock → Item → Buffer → Result (Buffer × Batch)
  unfolding insert selected candidates
  open_batch c first s = do
    let b = new_batch c (batch_digest first.item_id) first
    batches ← or_raise (insert batch_key b s.batches) integrity_error
    ok (
      record s {
        batches = batches;
        items = map (seal_item b.batch_id (selected first (candidates first s.items))) s.items;
      },
      b,
    )

  -- The loop over the batches that are still to be opened.
  unfoldable pub open_batches : Clock → ℕ → Buffer → Result (Buffer × List Batch)
  unfolding open_batch first_due
  open_batches c zero s = ok (s, [])
  open_batches c (suc n) s = elim (first_due c s) [
    | none ↦ ok (s, [])
    | some first ↦ (do
      opened ← open_batch c first s
      rest ← open_batches c n opened.0
      ok (rest.0, opened.1 ∷ rest.1))
  ]

  -- `seal`
  unfoldable pub seal : Clock → ℕ → Buffer → Result (Buffer × List Batch)
  unfolding unfinished open_batches
  seal c limit s = do
    guard (leb 1 limit && leb limit 32) (value_error pump_limit_out_of_range)
    let old = unfinished c limit s.batches
    opened ← open_batches c (limit - length old) s
    ok (opened.0, old ++ opened.1)

abbrev pub submit_batch : Batch → Batch
submit_batch b = if is_preparing b.state then record b { state = submitted } else b

-- The last transaction of `dispatch`, once its root is submitted. A batch without inputs has raised
-- before.
unfoldable pub dispatched : ℕ → Buffer → Result Buffer
dispatched id s = do
  guard (any (λ (i : Item). elim i.batch_id [ none ↦ false | some b ↦ b == id ]) s.items)
      (runtime_conflict batch_without_inputs)
  ok (record s { batches = update batch_key id submit_batch s.batches })

abbrev pub has_expired : Clock → List Root → Batch → Bool
has_expired c roots b = leb b.deadline c.database && no_root roots b.batch_id

-- Ten seconds, in microseconds.
abbrev pub retry_delay : ℕ
retry_delay = 10000000

abbrev pub defer_batch : Clock → List Root → Batch → Batch
defer_batch c roots b =
    if is_preparing b.state
    then record b {
      retry_at = c.database + retry_delay;
      state = if has_expired c roots b then failed else b.state;
      terminal_reason =
          if has_expired c roots b
          then some buffer_dispatch_deadline_exceeded
          else b.terminal_reason;
    }
    else b

-- What `tick` writes for a batch whose dispatch has raised.
unfoldable pub deferred : Clock → ℕ → Buffer → Buffer
deferred c id s = record s { batches = update batch_key id (defer_batch c s.roots) s.batches }
