-- ===== src/Buffering/Append.antt =====
-- buffering.py: `append` and `status`. `item_digest` stands for the SHA-256 of an item's identity.
use mta_runtime_intramind.Base.{
  ℕ, ◌+◌, Bool, true, false, ◌&&◌, ◌||◌, Option, none, some, List, [], ◌∷◌, ltb, leb, ◌==◌,
  if◌then◌else◌, decides, count, Result, ok, ◌>>=◌, ◌>>◌, guard, raise_if, or_raise,
  runtime_conflict, admission_denied, not_found, integrity_error, buffered_key_conflict,
  no_buffering, buffer_policy_exceeded, buffered_input_too_large, buffer_backlog_full,
  missing_buffered_input,
}
use mta_runtime_intramind.Contracts.Operation.{Artifact-discrete}
use mta_runtime_intramind.Table.{find, insert}
use mta_runtime_intramind.Ledger.State.{Clock, Root, RootState, Reason, root_key}
use mta_runtime_intramind.Buffering.State.{
  BufferedSubmission, Limits, Definition, BatchState, failed, Batch, Item, Buffer, batch_key,
  item_key, is_preparing, is_submitted, root_runs,
}

-- The unique key (tenant_id, submission_key).
unfoldable pub find_item : ℕ → ℕ → List Item → Option Item
find_item tenant key [] = none
find_item tenant key (i ∷ is) =
    if i.tenant_id == tenant && i.submission_key == key then some i else find_item tenant key is

-- The three comparisons with the input that used the key first.
abbrev pub is_same_input : BufferedSubmission → Item → Bool
is_same_input request old =
    decides (Artifact-discrete old.input request.input)
    && old.task_type == request.task_type
    && old.partition_key == request.partition_key

abbrev pub bytes_allowed : Option ℕ → ℕ
bytes_allowed none = 65536
bytes_allowed (some n) = n

-- The WHERE of the backlog: the item is not sealed, or its batch has not ended.
abbrev pub is_pending : Buffer → Item → Bool
is_pending s i = elim i.batch_id [
  | none ↦ true
  | some id ↦ elim (find batch_key id s.batches) [
    | none ↦ false
    | some b ↦ is_preparing b.state || (is_submitted b.state && root_runs s.roots id)
  ]
]

abbrev pub of_tenant : ℕ → Item → Bool
of_tenant tenant i = i.tenant_id == tenant

abbrev pub of_partition : ℕ → ℕ → ℕ → Item → Bool
of_partition tenant task partition i =
    i.tenant_id == tenant && i.task_type == task && i.partition_key == partition

unfoldable pub is_full : ℕ → BufferedSubmission → Limits → Buffer → Bool
is_full tenant request limits s =
    leb s.max_pending (count (is_pending s) s.items)
    || leb limits.max_pending_per_tenant (count (λ i. is_pending s i && of_tenant tenant i) s.items)
    || leb limits.max_pending_per_partition (
        count (λ i. is_pending s i && of_partition tenant request.task_type request.partition_key i)
          s.items)

abbrev pub new_item : Clock → ℕ → ℕ → ℕ → BufferedSubmission → Definition → Buffer → Item
new_item c tenant id queue request definition s = record {
  ordinal = s.next_ordinal;
  item_id = id;
  tenant_id = tenant;
  task_type = request.task_type;
  partition_key = request.partition_key;
  submission_key = request.submission_key;
  input = request.input;
  configuration = request.configuration;
  definition = record definition { control_queue = queue };
  batch_size = request.batch_size;
  due_at = c.database + request.delay;
  batch_id = none;
}

module _ (item_digest : ℕ → ℕ → ℕ) where
  -- An input whose key has not been used for yet.
  unfoldable pub append_new :
      Clock → ℕ → ℕ → BufferedSubmission → Definition → Buffer → Result (Buffer × ℕ)
  unfolding is_full insert
  append_new c tenant queue request definition s = do
    limits ← or_raise definition.buffering (admission_denied no_buffering false)
    raise_if (ltb limits.max_batch_size request.batch_size || ltb limits.max_delay request.delay)
        (admission_denied buffer_policy_exceeded false)
    raise_if (ltb (bytes_allowed limits.max_item_bytes) request.input.size)
        (admission_denied buffered_input_too_large false)
    raise_if (is_full tenant request limits s) (admission_denied buffer_backlog_full true)
    let id = item_digest tenant request.submission_key
    items ←
        or_raise (insert item_key (new_item c tenant id queue request definition s) s.items)
          integrity_error
    ok (record s { items = items; next_ordinal = s.next_ordinal + 1 }, id)

  -- `append`
  unfoldable pub append :
      Clock → ℕ → ℕ → BufferedSubmission → Definition → Buffer → Result (Buffer × ℕ)
  unfolding find_item append_new
  append c tenant queue request definition s =
      elim (find_item tenant request.submission_key s.items) [
        | none ↦ append_new c tenant queue request definition s
        | some old ↦ (do
          guard (is_same_input request old) (runtime_conflict buffered_key_conflict)
          ok (s, old.item_id))
      ]

-- The state that `status` reports: the root's, else the batch's, else PENDING.
pub data Progress : Type 0 where
  pending : Progress
  in_batch : BatchState → Progress
  in_run : RootState → Progress

pub record Status : Type 0 where
  pub item_id : ℕ
  pub due_at : ℕ
  pub run_id : Option ℕ
  pub state : Progress
  pub terminal_reason : Option Reason

abbrev pub has_failed : BatchState → Bool
has_failed failed = true
has_failed _ = false

abbrev pub batch_of : Buffer → Item → Option Batch
batch_of s i = elim i.batch_id [ none ↦ none | some id ↦ find batch_key id s.batches ]

abbrev pub root_of_item : Buffer → Item → Option Root
root_of_item s i = elim (batch_of s i) [ none ↦ none | some b ↦ find root_key b.batch_id s.roots ]

abbrev pub progress_of : Option Batch → Option Root → Progress
progress_of none root = pending
progress_of (some b) none = in_batch b.state
progress_of (some b) (some r) = if has_failed b.state then in_batch failed else in_run r.state

abbrev pub reason_of : Option Batch → Option Root → Option Reason
reason_of none root = none
reason_of (some b) none = b.terminal_reason
reason_of (some b) (some r) = elim r.terminal_reason [
  | none ↦ b.terminal_reason
  | some reason ↦ some reason
]

-- `status`
unfoldable pub status : ℕ → ℕ → Buffer → Result Status
status tenant id s = do
  i ← or_raise (find item_key id s.items) (not_found missing_buffered_input)
  guard (i.tenant_id == tenant) (not_found missing_buffered_input)
  ok (record {
    item_id = i.item_id;
    due_at = i.due_at;
    run_id = i.batch_id;
    state = progress_of (batch_of s i) (root_of_item s i);
    terminal_reason = reason_of (batch_of s i) (root_of_item s i);
  })
