-- ===== src/Buffering/Histories.antt =====
-- buffering.py: what its calls, and the ledger beside them, make of a buffer whose partitions run
-- one batch at a time.
use mta_runtime_intramind.Base.{
  ℕ, suc, zero, ◌≡◌, refl, Bool, true, false, ◌&&◌, Option, none, some, List, [], ◌∷◌, leb, ◌-◌,
  length, arith, any, ◌==◌, ◌||◌, ltb, ok, ◌>>=◌, ◌>>◌, OnOk, OnOk-bind, OnOk-guard, OnOk-raise_if,
  OnOk-or_raise, OnOk-eq, subst, guard, runtime_conflict, buffered_key_conflict,
}
use mta_runtime_intramind.Table.{find, insert}
use mta_runtime_intramind.Table.Distinct.{All, All-map, All-chosen, All-order_by}
use mta_runtime_intramind.Ledger.State.{Clock, Root, Ledger}
use mta_runtime_intramind.Ledger.History.{Call, run}
use mta_runtime_intramind.Buffering.Roots.{run-KeepsEnded}
use mta_runtime_intramind.Buffering.State.{
  BufferedSubmission, Definition, Batch, Item, Buffer, batch_key, item_key,
}
use mta_runtime_intramind.Buffering.Append.{
  append, append_new, find_item, is_same_input, is_full, bytes_allowed, new_item,
}
use mta_runtime_intramind.Buffering.Seal.{
  due_column, ordinal_column, blocks, in_partition_of, is_active, may_open, head, first_due,
  new_batch, open_batch, open_batches, seal, submit_batch, dispatched, defer_batch, deferred,
  unfinished,
}
use mta_runtime_intramind.Buffering.Exclusive.{
  NoClash, IsExclusive, KeepsEnded, NoClash-Shrinks, AllShrink-update, AllShrink-roots,
  submit_batch-Shrinks, defer_batch-Shrinks,
}

All-not_any :
    {A : Type 0} (p : A → Bool) (xs : List A) → any p xs ≡ false → All (λ x. p x ≡ false) xs
All-not_any p [] e = tt
All-not_any p (x ∷ xs) e = (ground (arith, e), All-not_any p xs (ground (arith, e)))

head-All : (P : Item → Type 0) (is : List Item) (i : Item) → All P is → head is ≡ some i → P i
head-All P [] i all e = absurd (cc)
head-All P (j ∷ is) i all e = subst P (some-injective e) all.0
  where
    some-injective : some j ≡ some i → j ≡ i
    some-injective e = cc

-- The item that opens a batch was free to do so.
first_due-may_open :
    (c : Clock) (s : Buffer) (i : Item) → first_due c s ≡ some i → may_open c s i ≡ true
unfolding first_due
first_due-may_open c s i e =
    head-All (λ j. may_open c s j ≡ true) _ i
      (All-order_by _ due_column _
        (All-order_by _ ordinal_column _ (All-chosen (may_open c s) s.items)))
      e

insert-some : (b : Batch) (bs cs : List Batch) → insert batch_key b bs ≡ some cs → b ∷ bs ≡ cs
unfolding insert
insert-some b bs cs e = shown (find batch_key (batch_key b) bs) e
  where
    shown :
        (o : Option Batch)
        → elim o [ none ↦ some (b ∷ bs) | some old ↦ none ] ≡ some cs
        → b ∷ bs ≡ cs
    shown none e = cc
    shown (some old) e = absurd (cc)

abbrev Exclusive : Buffer × List Batch → Type 0
Exclusive r = IsExclusive r.0

abbrev Appended : Buffer × ℕ → Type 0
Appended r = IsExclusive r.0

module _ (batch_digest : ℕ → ℕ) where
  open_batch-IsExclusive :
      (c : Clock) (first : Item) (s : Buffer)
      → may_open c s first ≡ true
      → IsExclusive s
      → OnOk (λ (r : Buffer × Batch). IsExclusive r.0) (open_batch batch_digest c first s)
  unfolding open_batch may_open
  open_batch-IsExclusive c first s free v =
      let b = new_batch c (batch_digest first.item_id) first in
      OnOk-or_raise (λ (r : Buffer × Batch). IsExclusive r.0) (insert batch_key b s.batches) _ _
        λ batches e.
          let idle : any (blocks s.roots first) s.batches ≡ false = ground (arith, free) in
          let opened : NoClash s.roots (b ∷ s.batches) = (
            All-map (λ x. still (in_partition_of first x) (is_active s.roots x)) s.batches
                (All-not_any (blocks s.roots first) s.batches idle),
            v,
          ) in
          subst (NoClash s.roots) (insert-some b s.batches batches e) opened
    where
      still : (p q : Bool) → (p && q) ≡ false → (p && true && q) ≡ false
      still true q e = e
      still false q e = refl

  open_batches-IsExclusive :
      (c : Clock) (n : ℕ) (s : Buffer)
      → IsExclusive s
      → OnOk Exclusive (open_batches batch_digest c n s)
  unfolding open_batches
  open_batches-IsExclusive c zero s v = v
  open_batches-IsExclusive c (suc n) s v =
      opens (first_due c s) (first_due-may_open c s) (open_batches-IsExclusive c n)
    where
      opens :
          (o : Option Item)
          → ((i : Item) → o ≡ some i → may_open c s i ≡ true)
          → ((t : Buffer) → IsExclusive t → OnOk Exclusive (open_batches batch_digest c n t))
          → OnOk Exclusive (elim o [
            | none ↦ ok (s, [])
            | some first ↦ (do
              opened ← open_batch batch_digest c first s
              rest ← open_batches batch_digest c n opened.0
              ok (rest.0, opened.1 ∷ rest.1))
          ])
      opens none free rest = v
      opens (some first) free rest =
          OnOk-bind (λ (r : Buffer × Batch). IsExclusive r.0) Exclusive _ _
            (open_batch-IsExclusive c first s (free first refl) v)
            λ opened w. OnOk-bind Exclusive Exclusive _ _ (rest opened.0 w) (λ r x. x)

  seal-IsExclusive :
      (c : Clock) (limit : ℕ) (s : Buffer)
      → IsExclusive s
      → OnOk Exclusive (seal batch_digest c limit s)
  unfolding seal
  seal-IsExclusive c limit s v = OnOk-guard Exclusive (leb 1 limit && leb limit 32) _ _ λ _.
      OnOk-bind Exclusive Exclusive
        (open_batches batch_digest c (limit - length (unfinished c limit s.batches)) s) _
        (open_batches-IsExclusive c (limit - length (unfinished c limit s.batches)) s v) (λ r w. w)

module _ (item_digest : ℕ → ℕ → ℕ) where
  append_new-IsExclusive :
      (c : Clock) (tenant queue : ℕ) (request : BufferedSubmission) (definition : Definition)
      (s : Buffer)
      → IsExclusive s
      → OnOk Appended (append_new item_digest c tenant queue request definition s)
  unfolding append_new
  append_new-IsExclusive c tenant queue request definition s v =
      OnOk-or_raise Appended definition.buffering _ _ λ limits _.
        OnOk-raise_if Appended
          (ltb limits.max_batch_size request.batch_size || ltb limits.max_delay request.delay) _ _
          λ _.
            OnOk-raise_if Appended (ltb (bytes_allowed limits.max_item_bytes) request.input.size) _
              _
              λ _. OnOk-raise_if Appended (is_full tenant request limits s) _ _ λ _.
                OnOk-or_raise Appended
                  (insert item_key
                    (new_item c tenant (item_digest tenant request.submission_key) queue request
                      definition s)
                    s.items)
                  _ _ (λ items _. v)

  append-IsExclusive :
      (c : Clock) (tenant queue : ℕ) (request : BufferedSubmission) (definition : Definition)
      (s : Buffer)
      → IsExclusive s
      → OnOk Appended (append item_digest c tenant queue request definition s)
  unfolding append
  append-IsExclusive c tenant queue request definition s v =
      known (find_item tenant request.submission_key s.items)
    where
      known :
          (o : Option Item)
          → OnOk Appended (elim o [
            | none ↦ append_new item_digest c tenant queue request definition s
            | some old ↦ (do
              guard (is_same_input request old) (runtime_conflict buffered_key_conflict)
              ok (s, old.item_id))
          ])
      known none = append_new-IsExclusive c tenant queue request definition s v
      known (some old) = OnOk-guard Appended (is_same_input request old) _ _ (λ _. v)

dispatched-IsExclusive : (id : ℕ) (s : Buffer) → IsExclusive s → OnOk IsExclusive (dispatched id s)
unfolding dispatched
dispatched-IsExclusive id s v =
    OnOk-guard IsExclusive
      (any (λ (i : Item). elim i.batch_id [ none ↦ false | some b ↦ b == id ]) s.items) _ _
      λ _.
        NoClash-Shrinks s.roots s.roots s.batches _
          (AllShrink-update s.roots id submit_batch s.batches (submit_batch-Shrinks s.roots)) v

deferred-IsExclusive :
    (c : Clock) (id : ℕ) (s : Buffer) → IsExclusive s → IsExclusive (deferred c id s)
unfolding deferred
deferred-IsExclusive c id s v =
    NoClash-Shrinks s.roots s.roots s.batches _
      (AllShrink-update s.roots id (defer_batch c s.roots) s.batches
        (defer_batch-Shrinks c s.roots))
      v

module _ (item_digest : ℕ → ℕ → ℕ) (batch_digest : ℕ → ℕ) where
  -- A transaction of the buffer that returned, or what happens to the roots between two of them: the
  -- calls of the ledger, or anything else that keeps what has ended.
  pub data BufferStep : Buffer → Buffer → Type 0 where
    appends :
        (c : Clock) (tenant queue : ℕ) (request : BufferedSubmission) (definition : Definition)
        {s : Buffer} (r : Buffer × ℕ)
        → append item_digest c tenant queue request definition s ≡ ok r
        → BufferStep s r.0
    seals :
        (c : Clock) (limit : ℕ) {s : Buffer} (r : Buffer × List Batch)
        → seal batch_digest c limit s ≡ ok r
        → BufferStep s r.0
    dispatches : (id : ℕ) {s t : Buffer} → dispatched id s ≡ ok t → BufferStep s t
    defers : (c : Clock) (id : ℕ) {s : Buffer} → BufferStep s (deferred c id s)
    ledger_runs :
        (sha256 : ℕ → List ℕ) (calls : List (Clock × Call)) (ledger : Ledger) {s : Buffer}
        → s.roots ≡ ledger.roots
        → BufferStep s (record s { roots = (run sha256 calls ledger).roots })
    roots_move :
        {s : Buffer} (later : List Root)
        → KeepsEnded s.roots later
        → BufferStep s (record s { roots = later })

  pub data Reachable : Buffer → Buffer → Type 0 where
    start : {s : Buffer} → Reachable s s
    then_step : {s t u : Buffer} → Reachable s t → BufferStep t u → Reachable s u

  step-IsExclusive : {s t : Buffer} → IsExclusive s → BufferStep s t → IsExclusive t
  step-IsExclusive v (appends c tenant queue request definition {s} r e) =
      OnOk-eq Appended _ r (append-IsExclusive item_digest c tenant queue request definition s v) e
  step-IsExclusive v (seals c limit {s} r e) =
      OnOk-eq Exclusive _ r (seal-IsExclusive batch_digest c limit s v) e
  step-IsExclusive v (dispatches id {s} {t} e) =
      OnOk-eq IsExclusive _ t (dispatched-IsExclusive id s v) e
  step-IsExclusive v (defers c id {s}) = deferred-IsExclusive c id s v
  step-IsExclusive v (ledger_runs sha256 calls ledger {s} same) =
      NoClash-Shrinks s.roots _ s.batches s.batches
        (AllShrink-roots s.roots _ s.batches (rw (same) (run-KeepsEnded sha256 calls ledger))) v
  step-IsExclusive v (roots_move {s} later kept) =
      NoClash-Shrinks s.roots later s.batches s.batches
        (AllShrink-roots s.roots later s.batches kept) v

  -- From a buffer in which no two batches of one partition are active, no transactions of the
  -- buffer, no calls of the ledger between them, and nothing else that keeps ended roots ended lead
  -- to one in which two are.
  pub reached-IsExclusive : {s t : Buffer} → Reachable s t → IsExclusive s → IsExclusive t
  reached-IsExclusive start v = v
  reached-IsExclusive (then_step path step) v = step-IsExclusive (reached-IsExclusive path v) step
