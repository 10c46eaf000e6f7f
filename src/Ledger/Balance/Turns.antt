-- ===== src/Ledger/Balance/Turns.antt =====
-- The loops of the store over the rows of a query: each turn leaves the rows of the others alone.
use mta_runtime_intramind.Base.{
  ℕ, ◌≡◌, refl, sym, ap, ◌∙◌, subst, Bool, false, Option, none, some, List, [], ◌∷◌, ◌==◌, select,
  Result, OnOk, OnOk-bind, Option-cases, inl, inr,
}
use mta_runtime_intramind.Table.{find, rows, order_by, find-update, find-key}
use mta_runtime_intramind.Table.Distinct.{
  All, Differs, Distinct, All-select, All-order_by, Distinct-select, Distinct-order_by,
  Distinct-rows,
}
use mta_runtime_intramind.Table.Members.{In, In-rows}
use mta_runtime_intramind.Ledger.State.{Ledger, Attempt, attempt_key, operation_key, root_key}
use mta_runtime_intramind.Ledger.Attempts.{Joined, join}
use mta_runtime_intramind.Ledger.Stopping.{join_each, joined_rows, each_row, created}
use mta_runtime_intramind.Ledger.Owned.{join-IsJoined, IsJoined-key, IsJoined-found, IsJoined-root}
use mta_runtime_intramind.Ledger.Balance.Invariant.{root_of, IsConsistent}
use mta_runtime_intramind.Ledger.Balance.Frame.{Frame, SameRoots}
use mta_runtime_intramind.Ledger.Balance.Relabel.{with_attempts}
use mta_runtime_intramind.Ledger.Balance.Settling.{Settled}
use mta_runtime_intramind.Ledger.Balance.Submitting.{AllLinked-find}
use mathlib.Core.Option

abbrev pub joined_key : Joined → ℕ
joined_key j = j.attempt.attempt_id

-- The row that the query has read is still the attempt's row, and its root still its root.
pub record IsFresh (s : Ledger) (j : Joined) : Type 0 where
  pub found : find attempt_key j.attempt.attempt_id s.attempts ≡ some j.attempt
  pub drawn : root_of s.operations j.attempt.operation_id ≡ some j.operation.root_id

-- What a turn on `j` leaves to the turns after it.
pub record Turned (s : Ledger) (j : Joined) (t : Ledger) : Type 0 where
  pub consistent : IsConsistent t
  pub others :
      (k : ℕ)
      → (j.attempt.attempt_id == k) ≡ false
      → find attempt_key k t.attempts ≡ find attempt_key k s.attempts
  pub roots : SameRoots s.operations t.operations

stay-IsFresh :
    (s t : Ledger) (j : Joined) (js : List Joined)
    → Turned s j t
    → All (Differs joined_key (joined_key j)) js
    → All (IsFresh s) js
    → All (IsFresh t) js
stay-IsFresh s t j [] turned apart fresh = tt
stay-IsFresh s t j (k ∷ js) turned apart fresh = (
  record {
    found = turned.others (joined_key k) apart.0 ∙ fresh.0.found;
    drawn = turned.roots k.attempt.operation_id ∙ fresh.0.drawn;
  },
  stay-IsFresh s t j js turned apart.1 fresh.1,
)

-- A loop keeps the books, and an invariant of the rows that are left, if each of its turns does.
module _ {ℓ} (turn : Joined → Ledger → Result Ledger) (Rest : List Joined → Ledger → Type ℓ)
    (step : (j : Joined) (js : List Joined) (s : Ledger)
      → IsConsistent s
      → IsFresh s j
      → Rest (j ∷ js) s
      → OnOk (λ t. Turned s j t × Rest js t) (turn j s)) where
  pub each_row-IsConsistent :
      (js : List Joined) (s : Ledger)
      → IsConsistent s
      → All (IsFresh s) js
      → Distinct joined_key js
      → Rest js s
      → OnOk (λ t. IsConsistent t × Rest [] t) (each_row turn js s)
  unfolding each_row
  each_row-IsConsistent [] s v fresh apart rest = (v, rest)
  each_row-IsConsistent (j ∷ js) s v fresh apart rest =
      OnOk-bind (λ t. Turned s j t × Rest js t) (λ t. IsConsistent t × Rest [] t) (turn j s) _
        (step j js s v fresh.0 rest)
        λ t turned.
          each_row-IsConsistent js t turned.0.consistent
            (stay-IsFresh s t j js turned.0 apart.0 fresh.1) apart.1 turned.1

-- A settled attempt whose row is then written is turned, whatever happens to its operation.
pub Settled-Turned :
    (s t u : Ledger) (j : Joined) (g : Attempt → Attempt)
    → Settled j.attempt s t
    → ((x : Attempt) → (g x).attempt_id ≡ x.attempt_id)
    → Frame (with_attempts t j.attempt.attempt_id g) u
    → IsConsistent u
    → Turned s j u
Settled-Turned s t u j g settled key frame v = record {
  consistent = v;
  others = λ k other.
      ap (find attempt_key k) frame.attempts
      ∙ find-update attempt_key k j.attempt.attempt_id g t.attempts key
      ∙ rw other (
          ap (find attempt_key k) settled.attempts
          ∙ find-update attempt_key k j.attempt.attempt_id settled.row s.attempts settled.row_key
          ∙ rw other refl);
  roots = λ id. frame.roots id ∙ ap (λ os. root_of os id) settled.operations;
}

pub joined-IsFresh : (s : Ledger) (id : ℕ) (j : Joined) → join s id ≡ some j → IsFresh s j
joined-IsFresh s id j e =
    let w = join-IsJoined s id j e in record { found = IsJoined-found w; drawn = IsJoined-root w }

-- What a join adds in front of the rows that follow.
abbrev in_front : Option Joined → List Joined → List Joined
in_front o js = elim o as (λ x. List Joined) [ none ↦ js | some j ↦ j ∷ js ]

join_each-IsFresh : (s : Ledger) (xs : List Attempt) → All (IsFresh s) (join_each s xs)
unfolding join_each
join_each-IsFresh s [] = tt
join_each-IsFresh s (a ∷ xs) = front (join s a.attempt_id) refl (join_each-IsFresh s xs)
  where
    front :
        (o : Option Joined)
        → join s a.attempt_id ≡ o
        → All (IsFresh s) (join_each s xs)
        → All (IsFresh s) (in_front o (join_each s xs))
    front none e rest = rest
    front (some j) e rest = (joined-IsFresh s a.attempt_id j e, rest)

join_each-Differs :
    (s : Ledger) (k : ℕ) (xs : List Attempt)
    → All (Differs attempt_key k) xs
    → All (Differs joined_key k) (join_each s xs)
unfolding join_each
join_each-Differs s k [] apart = tt
join_each-Differs s k (a ∷ xs) apart =
    front (join s a.attempt_id) refl (join_each-Differs s k xs apart.1)
  where
    front :
        (o : Option Joined)
        → join s a.attempt_id ≡ o
        → All (Differs joined_key k) (join_each s xs)
        → All (Differs joined_key k) (in_front o (join_each s xs))
    front none e rest = rest
    front (some j) e rest =
        (ap (λ x. k == x) (IsJoined-key (join-IsJoined s a.attempt_id j e)) ∙ apart.0, rest)

join_each-Distinct :
    (s : Ledger) (xs : List Attempt)
    → Distinct attempt_key xs
    → Distinct joined_key (join_each s xs)
unfolding join_each
join_each-Distinct s [] apart = tt
join_each-Distinct s (a ∷ xs) apart =
    front (join s a.attempt_id) refl (join_each-Distinct s xs apart.1)
  where
    front :
        (o : Option Joined)
        → join s a.attempt_id ≡ o
        → Distinct joined_key (join_each s xs)
        → Distinct joined_key (in_front o (join_each s xs))
    front none e rest = rest
    front (some j) e rest = (
      join_each-Differs s (joined_key j) xs (
          subst (λ k. All (Differs attempt_key k) xs)
            (sym (IsJoined-key (join-IsJoined s a.attempt_id j e))) apart.0),
      rest,
    )

-- The rows that a query selects are those of the ledger, and each attempt is among them once.
pub joined_rows-IsFresh : (s : Ledger) → All (IsFresh s) (joined_rows s)
unfolding joined_rows
joined_rows-IsFresh s = join_each-IsFresh s (rows attempt_key s.attempts)

pub joined_rows-Distinct : (s : Ledger) → Distinct joined_key (joined_rows s)
unfolding joined_rows
joined_rows-Distinct s =
    join_each-Distinct s (rows attempt_key s.attempts) (Distinct-rows attempt_key s.attempts)

pub chosen-IsFresh :
    (s : Ledger) (p : Joined → Bool) → All (IsFresh s) (order_by created (select p (joined_rows s)))
chosen-IsFresh s p =
    All-order_by (IsFresh s) created _ (All-select (IsFresh s) p _ (joined_rows-IsFresh s))

pub chosen-Distinct :
    (s : Ledger) (p : Joined → Bool)
    → Distinct joined_key (order_by created (select p (joined_rows s)))
chosen-Distinct s p =
    Distinct-order_by joined_key created _ (Distinct-select joined_key p _ (joined_rows-Distinct s))

In-join_each :
    (s : Ledger) (a : Attempt) (j : Joined) (xs : List Attempt)
    → In a xs
    → join s a.attempt_id ≡ some j
    → In j (join_each s xs)
unfolding join_each
In-join_each s a j [] mem e = mem
In-join_each s a j (x ∷ xs) (inl same) e =
    at_front (join s x.attempt_id) (sym (ap (λ y. join s y.attempt_id) same) ∙ e)
  where
    at_front : (o : Option Joined) → o ≡ some j → In j (in_front o (join_each s xs))
    at_front none h = absurd (cc)
    at_front (some k) h = inl (cc)
In-join_each s a j (x ∷ xs) (inr mem) e = front (join s x.attempt_id) (In-join_each s a j xs mem e)
  where
    front : (o : Option Joined) → In j (join_each s xs) → In j (in_front o (join_each s xs))
    front none rest = rest
    front (some k) rest = inr rest

-- In a consistent ledger an attempt joins its operation and its root.
joins :
    (s : Ledger) (id : ℕ) (a : Attempt)
    → IsConsistent s
    → find attempt_key id s.attempts ≡ some a
    → (j : Joined) × ((join s id ≡ some j) × (j.attempt ≡ a))
unfolding join
joins s id a v e = elim (Option-cases (find operation_key a.operation_id s.operations)) [
  | inl lost ↦ absurd (
      AllLinked-find s.operations id s.attempts a e v.linked
        (ap (Option.map (λ o. o.root_id)) lost))
  | inr (o, eo) ↦ elim (Option-cases (find root_key o.root_id s.roots)) [
    | inl lost ↦
        absurd (v.rooted a.operation_id o.root_id (ap (Option.map (λ o. o.root_id)) eo) lost)
    | inr (r, er) ↦ (record { attempt = a; operation = o; root = r }, (rw (join, e, eo, er), refl))
  ]
]

-- Every attempt of a consistent ledger is among the rows that a query reads.
pub joined_rows-all :
    (s : Ledger) (id : ℕ) (a : Attempt)
    → IsConsistent s
    → find attempt_key id s.attempts ≡ some a
    → (j : Joined) × (In j (joined_rows s) × (j.attempt ≡ a))
unfolding joined_rows
joined_rows-all s id a v e =
    let (j, joined) = joins s id a v e in
    (
      j,
      (
        In-join_each s a j (rows attempt_key s.attempts) (In-rows attempt_key id a s.attempts e)
            (ap (join s) (find-key attempt_key id s.attempts a e) ∙ joined.0),
        joined.1,
      ),
    )
