-- ===== src/Ledger/Balance/Quiet.antt =====
-- The operations of store.py that move no budget: events, ended operations, closed roots.
use mta_runtime_intramind.Base.{
  ℕ, ◌≡◌, refl, ap, Bool, true, false, Option, none, some, List, [], ◌∷◌, arith, if◌then◌else◌,
  Bool-cases, inl, inr, ◌==◌,
}
use mta_runtime_intramind.Contracts.Operation.{OperationSpec}
use mta_runtime_intramind.Table.{find, update, find-update}
use mta_runtime_intramind.Ledger.State.{
  Ledger, Clock, Root, Operation, OperationState, Event, EventId, Reason, root_key, operation_key,
}
use mta_runtime_intramind.Ledger.Events.{
  event, completion_events, terminal, end_operation, expire_operation, expired,
}
use mta_runtime_intramind.Ledger.Runs.{end_each}
use mta_runtime_intramind.Ledger.Balance.Columns.{budget_of-update_root, budget_of-eq}
use mta_runtime_intramind.Ledger.Balance.Frame.{
  Frame, Frame-refl, Frame-trans, SameRoots, SameSpecs,
}
use mathlib.Core.Option

map-if_root :
    (test : Bool) (f : Operation → Operation) (o : Option Operation)
    → ((x : Operation) → (f x).root_id ≡ x.root_id)
    → Option.map (λ (x : Operation). x.root_id) (if test then Option.map f o else o)
      ≡ Option.map (λ (x : Operation). x.root_id) o
map-if_root true f none keeps = refl
map-if_root true f (some x) keeps = ap some (keeps x)
map-if_root false f o keeps = refl

pub SameRoots-update :
    (id : ℕ) (f : Operation → Operation) (xs : List Operation)
    → ((x : Operation) → (f x).operation_id ≡ x.operation_id)
    → ((x : Operation) → (f x).root_id ≡ x.root_id)
    → SameRoots xs (update operation_key id f xs)
SameRoots-update id f xs key keeps j =
    rw (find-update operation_key j id f xs key)
      (map-if_root (id == j) f (find operation_key j xs) keeps)

map-if_spec :
    (test : Bool) (f : Operation → Operation) (o : Option Operation)
    → ((x : Operation) → (f x).spec ≡ x.spec)
    → Option.map (λ (x : Operation). x.spec) (if test then Option.map f o else o)
      ≡ Option.map (λ (x : Operation). x.spec) o
map-if_spec true f none keeps = refl
map-if_spec true f (some x) keeps = ap some (keeps x)
map-if_spec false f o keeps = refl

pub SameSpecs-update :
    (id : ℕ) (f : Operation → Operation) (xs : List Operation)
    → ((x : Operation) → (f x).operation_id ≡ x.operation_id)
    → ((x : Operation) → (f x).spec ≡ x.spec)
    → SameSpecs xs (update operation_key id f xs)
SameSpecs-update id f xs key keeps j =
    rw (find-update operation_key j id f xs key)
      (map-if_spec (id == j) f (find operation_key j xs) keeps)

pub none-update :
    (test : Bool) (f : Root → Root) (o : Option Root)
    → (if test then Option.map f o else o) ≡ none
    → o ≡ none
none-update test f none e = refl
none-update true f (some x) e = absurd (cc)
none-update false f (some x) e = e

-- A row of runtime_operations is updated, and keeps its identity and its root.
pub operations-Frame :
    (s : Ledger) (id : ℕ) (f : Operation → Operation)
    → ((x : Operation) → (f x).operation_id ≡ x.operation_id)
    → ((x : Operation) → (f x).root_id ≡ x.root_id)
    → ((x : Operation) → (f x).spec ≡ x.spec)
    → Frame s (record s { operations = update operation_key id f s.operations })
operations-Frame s id f key keeps specs = record {
  budgets = λ root unit.
      budget_of-eq s (record s { operations = update operation_key id f s.operations }) root unit
        refl refl;
  attempts = refl;
  roots = SameRoots-update id f s.operations key keeps;
  specs = SameSpecs-update id f s.operations key specs;
  kept = λ root e. e;
}

pub roots-Frame :
    (s : Ledger) (id : ℕ) (f : Root → Root)
    → ((x : Root) → (f x).root_id ≡ x.root_id)
    → ((x : Root) → (f x).budget ≡ x.budget)
    → Frame s (record s { roots = update root_key id f s.roots })
roots-Frame s id f key keeps = record {
  budgets = λ root unit. budget_of-update_root id root unit f s key keeps;
  attempts = refl;
  roots = λ j. refl;
  specs = λ j. refl;
  kept = λ root e.
      none-update (id == root) f (find root_key root s.roots)
        (rw (find-update root_key root id f s.roots key) at e);
}

-- Only the outbox changes.
outbox-Frame : (s : Ledger) (events : List Event) → Frame s (record s { outbox = events })
outbox-Frame s events = record {
  budgets = λ root unit. budget_of-eq s (record s { outbox = events }) root unit refl refl;
  attempts = refl;
  roots = λ id. refl;
  specs = λ id. refl;
  kept = λ root e. e;
}

pub event-Frame :
    (c : Clock) (id : EventId) (aggregate : ℕ) (s : Ledger) → Frame s (event c id aggregate s)
unfolding event
event-Frame c id aggregate s = outbox-Frame s _

pub completion_events-Frame : (c : Clock) (id : ℕ) (s : Ledger) → Frame s (completion_events c id s)
unfolding completion_events
completion_events-Frame c id s = outbox-Frame s _

end_operation-key :
    (state : OperationState) (reason : Reason) (o : Operation)
    → (end_operation state reason o).operation_id ≡ o.operation_id
end_operation-key state reason o = ground arith

end_operation-root :
    (state : OperationState) (reason : Reason) (o : Operation)
    → (end_operation state reason o).root_id ≡ o.root_id
end_operation-root state reason o = ground arith

end_operation-spec :
    (state : OperationState) (reason : Reason) (o : Operation)
    → (end_operation state reason o).spec ≡ o.spec
end_operation-spec state reason o = ground arith

pub terminal-Frame :
    (c : Clock) (id : ℕ) (state : OperationState) (reason : Reason) (s : Ledger)
    → Frame s (terminal c id state reason s)
unfolding terminal
terminal-Frame c id state reason s =
    Frame-trans
      (operations-Frame s id (end_operation state reason) (end_operation-key state reason)
        (end_operation-root state reason) (end_operation-spec state reason))
      (completion_events-Frame c id _)

pub expire_operation-Frame :
    (c : Clock) (spec : OperationSpec) (at : ℕ) (s : Ledger)
    → Frame s (expire_operation c spec at s).0
unfolding expire_operation
expire_operation-Frame c spec at s = elim (Bool-cases (expired spec.deadline at)) [
  | inl e ↦ rw e (terminal-Frame c spec.operation_id _ _ s)
  | inr e ↦ rw e (Frame-refl s)
]

pub end_each-Frame :
    (c : Clock) (ids : List ℕ) (state : OperationState) (reason : Reason) (s : Ledger)
    → Frame s (end_each c ids state reason s)
unfolding end_each
end_each-Frame c [] state reason s = Frame-refl s
end_each-Frame c (id ∷ ids) state reason s =
    Frame-trans (terminal-Frame c id state reason s)
      (end_each-Frame c ids state reason (terminal c id state reason s))
