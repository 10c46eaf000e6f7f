-- ===== src/Buffering/Repeats.antt =====
-- buffering.py: an input that is appended again.
use mta_runtime_intramind.Base.{
  ℕ, ◌+◌, ◌≡◌, refl, ap, ◌∙◌, true, ◌||◌, Option, none, some, List, ◌∷◌, ==_refl, ltb, decides_refl,
  Result, ok, ◌>>=◌, ◌>>◌, guard, or_raise, integrity_error, OnOk, OnOk-eq, OnOk-guard,
  OnOk-raise_if, OnOk-or_raise, runtime_conflict, buffered_key_conflict,
}
use mta_runtime_intramind.Contracts.Operation.{Artifact-discrete}
use mta_runtime_intramind.Table.{find, insert}
use mta_runtime_intramind.Ledger.State.{Clock}
use mta_runtime_intramind.Buffering.State.{BufferedSubmission, Definition, Item, Buffer, item_key}
use mta_runtime_intramind.Buffering.Append.{
  append, append_new, find_item, is_same_input, is_full, bytes_allowed, new_item,
}

-- The key is taken by this input, and `id` is its item.
record IsKept (tenant : ℕ) (request : BufferedSubmission) (x : Buffer × ℕ) : Type 0 where
  pub kept : Item
  pub found : find_item tenant request.submission_key x.0.items ≡ some kept
  pub same_input : is_same_input request kept ≡ true
  pub same_item : kept.item_id ≡ x.1

module _ (item_digest : ℕ → ℕ → ℕ) (c : Clock) (tenant queue : ℕ) (request : BufferedSubmission)
    (definition : Definition) (s : Buffer) where
  abbrev Kept : Buffer × ℕ → Type 0
  Kept x = IsKept tenant request x

  abbrev added : Item
  added = new_item c tenant (item_digest tenant request.submission_key) queue request definition s

  append_new-IsKept : OnOk Kept (append_new item_digest c tenant queue request definition s)
  unfolding append_new insert find_item
  append_new-IsKept = OnOk-or_raise Kept definition.buffering _ _ λ limits _.
      OnOk-raise_if Kept
        (ltb limits.max_batch_size request.batch_size || ltb limits.max_delay request.delay) _ _
        λ _.
          OnOk-raise_if Kept (ltb (bytes_allowed limits.max_item_bytes) request.input.size) _ _ λ _.
            OnOk-raise_if Kept (is_full tenant request limits s) _ _
              λ _. listed (find item_key (item_key added) s.items)
    where
      listed :
          (o : Option Item)
          → OnOk Kept (
              or_raise
                (elim o as (λ x. Option (List Item)) [
                  | none ↦ some (added ∷ s.items)
                  | some old ↦ none
                ])
                integrity_error
              >>= λ items. ok (
                record s { items = items; next_ordinal = s.next_ordinal + 1 },
                item_digest tenant request.submission_key,
              ))
      listed (some other) = tt
      listed none = record {
        kept = added;
        found = rw (==_refl tenant, ==_refl request.submission_key) refl;
        same_input =
            rw
              (
                decides_refl (Artifact-discrete request.input request.input),
                ==_refl request.task_type,
                ==_refl request.partition_key,
              )
              refl;
        same_item = refl;
      }

  append-IsKept : OnOk Kept (append item_digest c tenant queue request definition s)
  unfolding append
  append-IsKept = known (find_item tenant request.submission_key s.items) refl
    where
      known :
          (o : Option Item)
          → find_item tenant request.submission_key s.items ≡ o
          → OnOk Kept (elim o as (λ x. Result (Buffer × ℕ)) [
            | none ↦ append_new item_digest c tenant queue request definition s
            | some old ↦ (do
              guard (is_same_input request old) (runtime_conflict buffered_key_conflict)
              ok (s, old.item_id))
          ])
      known none e = append_new-IsKept
      known (some old) e =
          OnOk-guard Kept (is_same_input request old) _ _
            λ h. record { kept = old; found = e; same_input = h; same_item = refl }

-- An input that was accepted is accepted again under its key with the same item and without a
-- change to the buffer, also with another definition, delay or size of its batch, and later.
pub append-again :
    (item_digest : ℕ → ℕ → ℕ) (c d : Clock) (tenant queue other : ℕ)
    (request again : BufferedSubmission) (definition changed : Definition) (s t : Buffer) (id : ℕ)
    → append item_digest c tenant queue request definition s ≡ ok (t, id)
    → again.submission_key ≡ request.submission_key
    → again.input ≡ request.input
    → again.task_type ≡ request.task_type
    → again.partition_key ≡ request.partition_key
    → append item_digest d tenant other again changed t ≡ ok (t, id)
unfolding append
append-again item_digest c d tenant queue other request again definition changed s t id accepted key
      input task partition =
    let kept =
      OnOk-eq (IsKept tenant request) (append item_digest c tenant queue request definition s)
        (t, id) (append-IsKept item_digest c tenant queue request definition s) accepted in
    let found : find_item tenant again.submission_key t.items ≡ some kept.kept =
      ap (λ k. find_item tenant k t.items) key ∙ kept.found in
    let same : is_same_input again kept.kept ≡ true = rw (input, task, partition) kept.same_input in
    rw (append, found, same) (ap (λ i. ok (t, i)) kept.same_item)
