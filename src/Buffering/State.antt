-- ===== src/Buffering/State.antt =====
-- buffering.sql, and the contracts of buffering.py. The state of a batch's root is read from the
-- ledger, which the operations on the buffer leave alone.
use mta_runtime_intramind.Base.{ℕ, Bool, true, false, Option, none, some, List, ℕ_discrete}
use mta_runtime_intramind.Contracts.Operation.{Artifact}
use mta_runtime_intramind.Table.{find}
use mta_runtime_intramind.Ledger.State.{Root, Reason, is_running, root_key}

-- BufferedSubmission
pub record BufferedSubmission : Type 0 where
  pub task_type : ℕ
  pub submission_key : ℕ
  pub partition_key : ℕ
  pub input : Artifact
  pub configuration : Artifact
  pub delay : ℕ
  pub batch_size : ℕ

-- The keys of a definition's "buffering" that are read; the limit on the size has a default.
pub record Limits : Type 0 where
  pub max_batch_size : ℕ
  pub max_delay : ℕ
  pub max_item_bytes : Option ℕ
  pub max_pending_per_tenant : ℕ
  pub max_pending_per_partition : ℕ

-- A task's definition: its bounds, if it accepts buffered inputs, how long its runs last, and the
-- rest of it, which is only compared. `append` adds the control queue.
pub record Definition : Type 0 where
  pub buffering : Option Limits
  pub deadline : ℕ
  pub rest : ℕ
  pub control_queue : ℕ

pub Definition-discrete : Discrete Definition
Definition-discrete = hlevel ℕ_discrete

pub data BatchState : Type 0 where
  preparing submitted failed : BatchState

-- runtime_buffer_batches
pub record Batch : Type 0 where
  pub batch_id : ℕ
  pub tenant_id : ℕ
  pub task_type : ℕ
  pub partition_key : ℕ
  pub state : BatchState
  pub definition : Definition
  pub configuration : Artifact
  pub deadline : ℕ
  pub retry_at : ℕ
  pub terminal_reason : Option Reason

-- runtime_buffer_items
pub record Item : Type 0 where
  pub ordinal : ℕ
  pub item_id : ℕ
  pub tenant_id : ℕ
  pub task_type : ℕ
  pub partition_key : ℕ
  pub submission_key : ℕ
  pub input : Artifact
  pub configuration : Artifact
  pub definition : Definition
  pub batch_size : ℕ
  pub due_at : ℕ
  pub batch_id : Option ℕ

pub record Buffer : Type 0 where
  -- runtime_authority
  pub max_pending : ℕ
  pub roots : List Root
  pub items : List Item
  pub batches : List Batch
  -- the sequence behind the ordinals
  pub next_ordinal : ℕ

abbrev pub batch_key : Batch → ℕ
batch_key b = b.batch_id

abbrev pub item_key : Item → ℕ
item_key i = i.item_id

abbrev pub is_preparing : BatchState → Bool
is_preparing preparing = true
is_preparing _ = false

abbrev pub is_submitted : BatchState → Bool
is_submitted submitted = true
is_submitted _ = false

abbrev pub is_sealed : Item → Bool
is_sealed i = elim i.batch_id [ none ↦ false | some b ↦ true ]

-- The root of a batch, which has the batch's identity.
abbrev pub root_runs : List Root → ℕ → Bool
root_runs roots id = elim (find root_key id roots) [ none ↦ false | some r ↦ is_running r.state ]

abbrev pub no_root : List Root → ℕ → Bool
no_root roots id = elim (find root_key id roots) [ none ↦ true | some r ↦ false ]
