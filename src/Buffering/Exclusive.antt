-- ===== src/Buffering/Exclusive.antt =====
-- buffering.py: each partition runs one batch at a time.
use mta_runtime_intramind.Base.{
  ℕ, ◌≡◌, refl, Bool, true, false, ◌&&◌, ◌||◌, List, [], ◌∷◌, arith, ◌==◌, if_intro,
}
use mta_runtime_intramind.Table.{update}
use mta_runtime_intramind.Table.Distinct.{All}
use mta_runtime_intramind.Ledger.State.{Clock, Root}
use mta_runtime_intramind.Buffering.State.{
  Batch, Buffer, batch_key, is_preparing, is_submitted, root_runs, no_root,
}
use mta_runtime_intramind.Buffering.Seal.{is_active, submit_batch, defer_batch}

-- Two batches of one partition of which neither has ended.
abbrev pub clash : List Root → Batch → Batch → Bool
clash roots b x =
    (x.tenant_id == b.tenant_id && x.task_type == b.task_type && x.partition_key == b.partition_key)
    && is_active roots b
    && is_active roots x

abbrev pub NoClash : List Root → List Batch → Type 0
NoClash roots [] = Unit
NoClash roots (b ∷ bs) = All (λ x. clash roots b x ≡ false) bs × NoClash roots bs

-- No two batches of one partition are active.
abbrev pub IsExclusive : Buffer → Type 0
IsExclusive s = NoClash s.roots s.batches

-- A change of a batch, or of the roots, after which it is active only if it was.
pub record Shrinks (roots later : List Root) (b c : Batch) : Type 0 where
  pub tenant : c.tenant_id ≡ b.tenant_id
  pub task : c.task_type ≡ b.task_type
  pub partition : c.partition_key ≡ b.partition_key
  pub active : is_active later c ≡ true → is_active roots b ≡ true

abbrev pub AllShrink : List Root → List Root → List Batch → List Batch → Type 0
AllShrink roots later [] [] = Unit
AllShrink roots later (b ∷ bs) (c ∷ cs) = Shrinks roots later b c × AllShrink roots later bs cs
AllShrink roots later _ _ = ⊥

module _ (roots later : List Root) where
  clash-Shrinks :
      (b c x y : Batch)
      → Shrinks roots later b c
      → Shrinks roots later x y
      → clash roots b x ≡ false
      → clash later c y ≡ false
  clash-Shrinks b c x y f g apart =
      shrunk _ (is_active roots b) (is_active roots x) (is_active later c) (is_active later y)
        f.active g.active (rw (f.tenant, f.task, f.partition, g.tenant, g.task, g.partition) apart)
    where
      shrunk :
          (same p q r t : Bool)
          → (r ≡ true → p ≡ true)
          → (t ≡ true → q ≡ true)
          → (same && p && q) ≡ false
          → (same && r && t) ≡ false
      shrunk false p q r t f g apart = refl
      shrunk true p q false t f g apart = refl
      shrunk true p q true false f g apart = refl
      shrunk true p q true true f g apart = absurd (ground (arith, f refl, g refl, apart))

  All-Shrinks :
      (b c : Batch) (bs cs : List Batch)
      → Shrinks roots later b c
      → AllShrink roots later bs cs
      → All (λ x. clash roots b x ≡ false) bs
      → All (λ y. clash later c y ≡ false) cs
  All-Shrinks b c [] [] f all apart = tt
  All-Shrinks b c [] (y ∷ cs) f all apart = absurd all
  All-Shrinks b c (x ∷ bs) [] f all apart = absurd all
  All-Shrinks b c (x ∷ bs) (y ∷ cs) f all apart =
      (clash-Shrinks b c x y f all.0 apart.0, All-Shrinks b c bs cs f all.1 apart.1)

  pub NoClash-Shrinks :
      (bs cs : List Batch) → AllShrink roots later bs cs → NoClash roots bs → NoClash later cs
  NoClash-Shrinks [] [] all v = tt
  NoClash-Shrinks [] (y ∷ cs) all v = absurd all
  NoClash-Shrinks (x ∷ bs) [] all v = absurd all
  NoClash-Shrinks (x ∷ bs) (y ∷ cs) all v =
      (All-Shrinks x y bs cs all.0 all.1 v.0, NoClash-Shrinks bs cs all.1 v.1)

Shrinks-refl : (roots : List Root) (b : Batch) → Shrinks roots roots b b
Shrinks-refl roots b = record { tenant = refl; task = refl; partition = refl; active = λ e. e }

AllShrink-refl : (roots : List Root) (bs : List Batch) → AllShrink roots roots bs bs
AllShrink-refl roots [] = tt
AllShrink-refl roots (b ∷ bs) = (Shrinks-refl roots b, AllShrink-refl roots bs)

pub AllShrink-update :
    (roots : List Root) (id : ℕ) (f : Batch → Batch) (bs : List Batch)
    → ((b : Batch) → Shrinks roots roots b (f b))
    → AllShrink roots roots bs (update batch_key id f bs)
unfolding update
AllShrink-update roots id f [] shrinks = tt
AllShrink-update roots id f (b ∷ bs) shrinks =
    if_intro (AllShrink roots roots (b ∷ bs)) (b.batch_id == id) _ _
      (λ _. (shrinks b, AllShrink-refl roots bs))
      (λ _. (Shrinks-refl roots b, AllShrink-update roots id f bs shrinks))

-- A root that has ended does not run again, and does not go away.
abbrev pub KeepsEnded : List Root → List Root → Type 0
KeepsEnded roots later =
    (id : ℕ)
    → (root_runs later id || no_root later id) ≡ true
    → (root_runs roots id || no_root roots id) ≡ true

pub AllShrink-roots :
    (roots later : List Root) (bs : List Batch)
    → KeepsEnded roots later
    → AllShrink roots later bs bs
AllShrink-roots roots later [] kept = tt
AllShrink-roots roots later (b ∷ bs) kept = (
  record {
    tenant = refl;
    task = refl;
    partition = refl;
    active = λ e. still (is_preparing b.state) (is_submitted b.state) _ _ (kept b.batch_id) e;
  },
  AllShrink-roots roots later bs kept,
)
  where
    still :
        (p q r t : Bool) → (t ≡ true → r ≡ true) → (p || (q && t)) ≡ true → (p || (q && r)) ≡ true
    still true q r t f e = refl
    still false true r t f e = f e
    still false false r t f e = e

-- A batch that is being prepared is active.
Shrinks-preparing :
    (roots : List Root) (b c : Batch)
    → is_preparing b.state ≡ true
    → c.tenant_id ≡ b.tenant_id
    → c.task_type ≡ b.task_type
    → c.partition_key ≡ b.partition_key
    → Shrinks roots roots b c
Shrinks-preparing roots b c e tenant task partition = record {
  tenant = tenant;
  task = task;
  partition = partition;
  active = λ _. rw (e) refl;
}

pub submit_batch-Shrinks : (roots : List Root) (b : Batch) → Shrinks roots roots b (submit_batch b)
submit_batch-Shrinks roots b =
    if_intro (Shrinks roots roots b) (is_preparing b.state) _ _
      (λ preparing. Shrinks-preparing roots b _ preparing refl refl refl)
      (λ _. Shrinks-refl roots b)

pub defer_batch-Shrinks :
    (c : Clock) (roots : List Root) (b : Batch) → Shrinks roots roots b (defer_batch c roots b)
defer_batch-Shrinks c roots b =
    if_intro (Shrinks roots roots b) (is_preparing b.state) _ _
      (λ preparing. Shrinks-preparing roots b _ preparing refl refl refl)
      (λ _. Shrinks-refl roots b)
