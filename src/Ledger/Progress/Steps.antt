-- ===== src/Ledger/Progress/Steps.antt =====
-- The relations that the rows of roots, operations and attempts move along.
use mta_runtime_intramind.Base.{ℕ, ◌≤◌, ◌≡◌, refl, ap, ◌∙◌, true, false, none, some, ◌∷◌, arith}
use mta_runtime_intramind.Table.{find, update, KeepsKey}
use mta_runtime_intramind.Ledger.State.{
  Ledger, Root, Operation, Attempt, is_terminal, is_settled, is_running, is_reserved, root_key,
  operation_key, attempt_key,
}
use mta_runtime_intramind.Ledger.Progress.Follows.{
  Follows, Follows-refl, Follows-trans, Follows-update, Follows-insert,
}

-- A root that has ended keeps its state and its result.
pub record RootStep (r q : Root) : Type 0 where
  pub spec : q.spec ≡ r.spec
  pub tenant : q.tenant_id ≡ r.tenant_id
  pub attempts : r.attempts ≤ q.attempts
  pub final : is_running r.state ≡ false → (q.state ≡ r.state) × (q.result ≡ r.result)

-- An operation that has ended keeps its state and its result.
pub record OperationStep (o p : Operation) : Type 0 where
  pub root : p.root_id ≡ o.root_id
  pub spec : p.spec ≡ o.spec
  pub attempts : o.attempts ≤ p.attempts
  pub final : is_terminal o.state ≡ true → (p.state ≡ o.state) × (p.result ≡ o.result)

-- An attempt that has ended keeps its state, and none returns to the state before the send.
pub record AttemptStep (a b : Attempt) : Type 0 where
  pub operation : b.operation_id ≡ a.operation_id
  pub owner : b.owner_id ≡ a.owner_id
  pub lease : b.lease_epoch ≡ a.lease_epoch
  pub final : is_settled a.state ≡ true → b.state ≡ a.state
  pub sent : is_reserved b.state ≡ true → is_reserved a.state ≡ true

pub RootStep-refl : (r : Root) → RootStep r r
RootStep-refl r = record {
  spec = refl;
  tenant = refl;
  attempts = omega arith;
  final = λ e. (refl, refl);
}

pub OperationStep-refl : (o : Operation) → OperationStep o o
OperationStep-refl o = record {
  root = refl;
  spec = refl;
  attempts = omega arith;
  final = λ e. (refl, refl);
}

pub AttemptStep-refl : (a : Attempt) → AttemptStep a a
AttemptStep-refl a = record {
  operation = refl;
  owner = refl;
  lease = refl;
  final = λ e. refl;
  sent = λ e. e;
}

RootStep-trans : (r q p : Root) → RootStep r q → RootStep q p → RootStep r p
RootStep-trans r q p f g = record {
  spec = g.spec ∙ f.spec;
  tenant = g.tenant ∙ f.tenant;
  attempts = omega (arith, f.attempts, g.attempts);
  final =
      λ e. let (u, v) = f.final e in let (x, y) = g.final (ap is_running u ∙ e) in (x ∙ u, y ∙ v);
}

OperationStep-trans :
    (o p q : Operation) → OperationStep o p → OperationStep p q → OperationStep o q
OperationStep-trans o p q f g = record {
  root = g.root ∙ f.root;
  spec = g.spec ∙ f.spec;
  attempts = omega (arith, f.attempts, g.attempts);
  final =
      λ e. let (u, v) = f.final e in let (x, y) = g.final (ap is_terminal u ∙ e) in (x ∙ u, y ∙ v);
}

AttemptStep-trans : (a b c : Attempt) → AttemptStep a b → AttemptStep b c → AttemptStep a c
AttemptStep-trans a b c f g = record {
  operation = g.operation ∙ f.operation;
  owner = g.owner ∙ f.owner;
  lease = g.lease ∙ f.lease;
  final = λ e. let u = f.final e in g.final (ap is_settled u ∙ e) ∙ u;
  sent = λ e. f.sent (g.sent e);
}

pub record Moves (s t : Ledger) : Type 0 where
  pub roots : Follows root_key RootStep s.roots t.roots
  pub operations : Follows operation_key OperationStep s.operations t.operations
  pub attempts : Follows attempt_key AttemptStep s.attempts t.attempts

same_roots : (s : Ledger) → Follows root_key RootStep s.roots s.roots
same_roots s = Follows-refl root_key RootStep RootStep-refl s.roots

same_operations : (s : Ledger) → Follows operation_key OperationStep s.operations s.operations
same_operations s = Follows-refl operation_key OperationStep OperationStep-refl s.operations

same_attempts : (s : Ledger) → Follows attempt_key AttemptStep s.attempts s.attempts
same_attempts s = Follows-refl attempt_key AttemptStep AttemptStep-refl s.attempts

pub Moves-refl : (s : Ledger) → Moves s s
Moves-refl s = record {
  roots = same_roots s;
  operations = same_operations s;
  attempts = same_attempts s;
}

pub Moves-trans : {s t u : Ledger} → Moves s t → Moves t u → Moves s u
Moves-trans f g = record {
  roots = Follows-trans root_key RootStep RootStep-trans f.roots g.roots;
  operations =
      Follows-trans operation_key OperationStep OperationStep-trans f.operations g.operations;
  attempts = Follows-trans attempt_key AttemptStep AttemptStep-trans f.attempts g.attempts;
}

-- An update of one row of one table.
pub Moves-root :
    (s : Ledger) (k : ℕ) (f : Root → Root)
    → KeepsKey root_key f
    → ((r : Root) → find root_key k s.roots ≡ some r → RootStep r (f r))
    → Moves s (record s { roots = update root_key k f s.roots })
Moves-root s k f keeps steps = record {
  roots = Follows-update root_key RootStep RootStep-refl k f s.roots keeps steps;
  operations = same_operations s;
  attempts = same_attempts s;
}

pub Moves-operation :
    (s : Ledger) (k : ℕ) (f : Operation → Operation)
    → KeepsKey operation_key f
    → ((o : Operation) → find operation_key k s.operations ≡ some o → OperationStep o (f o))
    → Moves s (record s { operations = update operation_key k f s.operations })
Moves-operation s k f keeps steps = record {
  roots = same_roots s;
  operations =
      Follows-update operation_key OperationStep OperationStep-refl k f s.operations keeps steps;
  attempts = same_attempts s;
}

pub Moves-attempt :
    (s : Ledger) (k : ℕ) (f : Attempt → Attempt)
    → KeepsKey attempt_key f
    → ((a : Attempt) → find attempt_key k s.attempts ≡ some a → AttemptStep a (f a))
    → Moves s (record s { attempts = update attempt_key k f s.attempts })
Moves-attempt s k f keeps steps = record {
  roots = same_roots s;
  operations = same_operations s;
  attempts = Follows-update attempt_key AttemptStep AttemptStep-refl k f s.attempts keeps steps;
}

-- A row under a key that the table does not have.
pub Moves-new_root :
    (s : Ledger) (r : Root)
    → find root_key r.root_id s.roots ≡ none
    → Moves s (record s { roots = r ∷ s.roots })
Moves-new_root s r fresh = record {
  roots = Follows-insert root_key RootStep RootStep-refl r s.roots fresh;
  operations = same_operations s;
  attempts = same_attempts s;
}

pub Moves-new_operation :
    (s : Ledger) (o : Operation)
    → find operation_key o.operation_id s.operations ≡ none
    → Moves s (record s { operations = o ∷ s.operations })
Moves-new_operation s o fresh = record {
  roots = same_roots s;
  operations = Follows-insert operation_key OperationStep OperationStep-refl o s.operations fresh;
  attempts = same_attempts s;
}

pub Moves-new_attempt :
    (s : Ledger) (a : Attempt)
    → find attempt_key a.attempt_id s.attempts ≡ none
    → Moves s (record s { attempts = a ∷ s.attempts })
Moves-new_attempt s a fresh = record {
  roots = same_roots s;
  operations = same_operations s;
  attempts = Follows-insert attempt_key AttemptStep AttemptStep-refl a s.attempts fresh;
}
