-- ===== src/Ledger/Selection.antt =====
-- store.py, `reserve_next`: the query for candidates, with its order.
use mta_runtime_intramind.Base.{
  ℕ, suc, zero, ◌+◌, max, Bool, true, false, not, ◌&&◌, ◌||◌, Option, none, some, List, [], ◌∷◌,
  ltb, leb, ◌==◌, if◌then◌else◌, all, contains,
}
use mta_runtime_intramind.Contracts.Operation.{
  Demand, Priority, qa, user_task, background, maintenance, interactive,
}
use mta_runtime_intramind.Contracts.Pool.{Resource}
use mta_runtime_intramind.Table.{find}
use mta_runtime_intramind.Ledger.State.{
  Ledger, Clock, Root, Operation, OperationState, Pool, ready, retry_wait, is_running, root_key,
}

-- `o.state IN ('READY','RETRY_WAIT')`
abbrev pub is_waiting : OperationState → Bool
is_waiting ready = true
is_waiting retry_wait = true
is_waiting _ = false

-- `retry_at IS NULL OR retry_at <= now`
abbrev pub due : Option ℕ → ℕ → Bool
due none now = true
due (some at) now = leb at now

abbrev pub matches : Option ℕ → ℕ → Bool
matches none profile = true
matches (some id) profile = id == profile

-- The pool's resource class serves the demand: kind, size, batch and model revision.
abbrev pub serves : ℕ → Resource → Demand → Bool
serves revision (Resource.llm limit) (Demand.llm i o) = leb (i + o) limit
serves revision (Resource.speech limit) (Demand.speech c) = leb (max 1 c) limit
serves revision (Resource.embedding limit batch) (Demand.embedding r c t) =
    leb (max 1 c) limit && leb t batch && r == revision
serves revision _ _ = false

-- `frozenset.issubset`
abbrev pub subset : List ℕ → List ℕ → Bool
subset required offered = all (λ c. contains c offered) required

-- The WHERE clause.
unfoldable pub eligible : Clock → Pool → Operation → Root → Bool
eligible c pool o r =
    is_waiting o.state
    && due o.retry_at c.transaction
    && is_running r.state
    && not r.cancel_requested
    && ltb c.transaction r.deadline
    && o.spec.model_profile == pool.model_profile
    && matches o.spec.capacity_profile_id pool.spec.profile_id
    && serves pool.spec.model_revision pool.spec.resource o.spec.demand
    && subset o.spec.required_capabilities pool.spec.capabilities

-- Waiting this long since it was created, or since its root was last served.
abbrev pub aged : Clock → Operation → Root → ℕ → Bool
aged c o r span = leb (max o.created_at r.last_served + span) c.database

-- The CASE of the ORDER BY: each class is promoted to the first after its own wait.
unfoldable pub turn : Clock → Operation → Root → Priority → ℕ
turn c o r qa = 0
turn c o r interactive = if aged c o r 60000000 then 0 else 1
turn c o r user_task = if aged c o r 60000000 then 0 else 1
turn c o r background = if aged c o r 120000000 then 0 else 2
turn c o r maintenance = if aged c o r 300000000 then 0 else 3

-- `COALESCE(max(last_served),0)` over the roots of one tenant
unfoldable pub tenant_served : ℕ → List Root → ℕ
tenant_served tenant [] = 0
tenant_served tenant (r ∷ rs) =
    let rest = tenant_served tenant rs in
    if r.tenant_id == tenant then max r.last_served rest else rest

pub record Candidate : Type 0 where
  pub operation_id : ℕ
  pub order : List ℕ

-- Rows compare by the columns of the ORDER BY, left to right.
unfoldable pub before : List ℕ → List ℕ → Bool
before [] ys = true
before (x ∷ xs) [] = false
before (x ∷ xs) (y ∷ ys) = ltb x y || (x == y && before xs ys)

unfoldable pub place : Candidate → List Candidate → List Candidate
place x [] = x ∷ []
place x (y ∷ ys) = if before x.order y.order then x ∷ y ∷ ys else y ∷ place x ys

abbrev pub candidate : Clock → Ledger → Operation → Root → Candidate
candidate c s o r = record {
  operation_id = o.operation_id;
  order =
      turn c o r r.priority
      ∷ tenant_served r.tenant_id s.roots
      ∷ r.last_served
      ∷ o.created_at
      ∷ o.operation_id
      ∷ [];
}

-- The rows of the join that pass, in order.
unfoldable pub sorted_candidates : Clock → Pool → Ledger → List Operation → List Candidate
unfolding eligible turn tenant_served place before
sorted_candidates c pool s [] = []
sorted_candidates c pool s (o ∷ os) =
    let rest = sorted_candidates c pool s os in
    elim (find root_key o.root_id s.roots) [
      | none ↦ rest
      | some r ↦ if eligible c pool o r then place (candidate c s o r) rest else rest
    ]

unfoldable pub take {ℓ} : {A : Type ℓ} → ℕ → List A → List A
take zero xs = []
take (suc n) [] = []
take (suc n) (x ∷ xs) = x ∷ take n xs

-- The query, with its LIMIT 64.
unfoldable pub candidates : Clock → Pool → Ledger → List Candidate
unfolding sorted_candidates take
candidates c pool s = take 64 (sorted_candidates c pool s s.operations)
