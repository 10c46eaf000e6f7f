-- ===== src/Ledger/Overlapping.antt =====
-- store.py: what overlapping transactions of `update_target` keep, and what they do not.
use mta_runtime_intramind.Base.{
  ℕ, zero, suc, ◌+◌, ◌≤◌, ◌≡◌, refl, sym, ap, ◌∙◌, subst, Bool, true, false, Bool-cases, inl, inr,
  Option, none, some, List, [], ◌∷◌, arith, ◌==◌, ==→eq, ==_refl, count, Result, ok, err, OnOk,
  OnOk-guard, OnOk-or_raise, or_raise, admission_denied, target_outside_ceiling,
}
use mta_runtime_intramind.Base.Int.{ℤ, pos, negsuc}
use mta_runtime_intramind.Table.{find, update, find-update}
use mta_runtime_intramind.Table.Distinct.{All}
use mta_runtime_intramind.Ledger.State.{Ledger, Pool, ControllerUpdate, pool_key}
use mta_runtime_intramind.Ledger.Engine.{within_ceiling, retarget, read_envelope, write_target}
use mta_runtime_intramind.Ledger.Overlap.{
  Pending, Overlap, Statement, selects, updates, pick, after_select, after_pick, run_statement,
  run_statements,
}

abbrev pub of_pool : ℕ → ControllerUpdate → Bool
of_pool id u = u.pool_id == id

within_ceiling-bounded :
    (target : ℤ) (ceiling n : ℕ) → within_ceiling target ceiling ≡ some n → n ≤ ceiling
within_ceiling-bounded (pos k) ceiling n h = ground arith
within_ceiling-bounded (negsuc k) ceiling n h = absurd (cc)

some-injective : {A : Type 0} {x y : A} → some x ≡ some y → x ≡ y
some-injective e = cc

-- The target that the checks let through is within the ceiling of the pool.
abbrev Bounded : ℕ → Ledger → ℕ → Type 0
Bounded id s n = (p : Pool) → find pool_key id s.pools ≡ some p → n ≤ p.hard_ceiling

read_envelope-Bounded :
    (id : ℕ) (target : ℤ) (version : ℕ) (s : Ledger)
    → OnOk (Bounded id s) (read_envelope id target version s)
unfolding read_envelope
read_envelope-Bounded id target version s =
    OnOk-or_raise (Bounded id s) (find pool_key id s.pools) _ _ λ p found.
      OnOk-guard (Bounded id s) (p.envelope_version == version) _ _
        λ _. checked p found (within_ceiling target p.hard_ceiling) refl
  where
    checked :
        (p : Pool)
        → find pool_key id s.pools ≡ some p
        → (o : Option ℕ) → within_ceiling target p.hard_ceiling ≡ o
        → OnOk (Bounded id s) (or_raise o (admission_denied target_outside_ceiling false))
    checked p found none e = tt
    checked p found (some n) e = λ q same.
        rw (ap (λ (x : Pool). x.hard_ceiling) (some-injective (sym same ∙ found)))
          (within_ceiling-bounded target p.hard_ceiling n e)

module _ (id : ℕ) (start : Ledger) (first : Pool) where
  -- The row of the pool has kept its ceiling, its target is within it, and its version has grown by
  -- one for each update that is recorded for the pool.
  pub record IsCounted (t : Ledger) : Type 0 where
    pub row : Pool
    pub found : find pool_key id t.pools ≡ some row
    pub ceiling : row.hard_ceiling ≡ first.hard_ceiling
    pub bounded : row.target ≤ first.hard_ceiling
    pub version :
        row.envelope_version + count (of_pool id) start.controller_updates
        ≡ first.envelope_version + count (of_pool id) t.controller_updates

  abbrev IsWaiting : Pending → Type 0
  IsWaiting u = (u.pool_id == id) ≡ true → u.target ≤ first.hard_ceiling

  abbrev IsSound : Overlap → Type 0
  IsSound o = IsCounted o.ledger × All IsWaiting o.pending

  abbrev AllPicked : Option (Pending × List Pending) → Type 0
  AllPicked none = Unit
  AllPicked (some (u, us)) = IsWaiting u × All IsWaiting us

  pick-All : (n : ℕ) (us : List Pending) → All IsWaiting us → AllPicked (pick n us)
  unfolding pick
  pick-All n [] all = tt
  pick-All zero (u ∷ us) all = all
  pick-All (suc n) (u ∷ us) all = skipped (pick n us) (pick-All n us all.1)
    where
      skipped :
          (o : Option (Pending × List Pending))
          → AllPicked o
          → AllPicked (elim o as (λ x. Option (Pending × List Pending)) [
            | none ↦ none
            | some rest ↦ some (rest.0, u ∷ rest.1)
          ])
      skipped none rest = tt
      skipped (some (w, ws)) rest = (rest.0, (all.0, rest.1))

  write_target-IsCounted :
      (u : Pending) (t : Ledger)
      → IsWaiting u
      → IsCounted t
      → IsCounted (write_target u.pool_id u.target u.version u.reason t)
  unfolding write_target
  write_target-IsCounted u t waits v = elim (Bool-cases (u.pool_id == id)) [
    | inl here ↦ record {
      row = retarget u.target v.row;
      found =
          rw
            (
              find-update pool_key id u.pool_id (retarget u.target) t.pools (λ x. refl),
              here,
              v.found,
            )
            refl;
      ceiling = v.ceiling;
      bounded = waits here;
      version = ground (arith, v.version, here);
    }
    | inr there ↦ record {
      row = v.row;
      found =
          rw (find-update pool_key id u.pool_id (retarget u.target) t.pools (λ x. refl), there)
            v.found;
      ceiling = v.ceiling;
      bounded = v.bounded;
      version = ground (arith, v.version, there);
    }
  ]

  after_select-IsSound :
      (pool version reason : ℕ) (o : Overlap) (m : Result ℕ)
      → OnOk (Bounded pool o.ledger) m
      → IsSound o
      → IsSound (after_select pool version reason o m)
  after_select-IsSound pool version reason o (err e) h v = v
  after_select-IsSound pool version reason o (ok n) h v = (
    v.0,
    (
      λ here.
          subst (λ k. n ≤ k) v.0.ceiling
            (h v.0.row (
              subst (λ k. find pool_key k o.ledger.pools ≡ some v.0.row) (sym (==→eq pool id here))
                v.0.found)),
      v.1,
    ),
  )

  after_pick-IsSound :
      (o : Overlap) (found : Option (Pending × List Pending))
      → AllPicked found
      → IsSound o
      → IsSound (after_pick o found)
  after_pick-IsSound o none all v = v
  after_pick-IsSound o (some (u, us)) all v = (write_target-IsCounted u o.ledger all.0 v.0, all.1)

  run_statement-IsSound : (x : Statement) (o : Overlap) → IsSound o → IsSound (run_statement x o)
  unfolding run_statement
  run_statement-IsSound (selects pool target version reason) o v =
      after_select-IsSound pool version reason o (read_envelope pool target version o.ledger)
        (read_envelope-Bounded pool target version o.ledger) v
  run_statement-IsSound (updates n) o v =
      after_pick-IsSound o (pick n o.pending) (pick-All n o.pending v.1) v

  run_statements-IsSound :
      (xs : List Statement) (o : Overlap) → IsSound o → IsSound (run_statements xs o)
  unfolding run_statements
  run_statements-IsSound [] o v = v
  run_statements-IsSound (x ∷ xs) o v =
      run_statements-IsSound xs (run_statement x o) (run_statement-IsSound x o v)

abbrev pub begin : Ledger → Overlap
begin s = record { ledger = s; pending = [] }

-- In whatever order the SELECTs and the UPDATEs of any number of overlapping transactions of
-- `update_target` come, a pool whose target is within its hard ceiling keeps it so, and its envelope
-- version grows by exactly one for each update of the pool that is recorded.
pub run_statements-IsCounted :
    (id : ℕ) (xs : List Statement) (s : Ledger) (p : Pool)
    → find pool_key id s.pools ≡ some p
    → p.target ≤ p.hard_ceiling
    → IsCounted id s p (run_statements xs (begin s)).ledger
run_statements-IsCounted id xs s p found within =
    (run_statements-IsSound id s p xs (begin s)
      (record { row = p; found = found; ceiling = refl; bounded = within; version = refl }, tt)).0

-- The SELECTs of two transactions for one pool and one version, and then their UPDATEs.
abbrev pub overlapping : ℕ → ℤ → ℤ → ℕ → ℕ → ℕ → List Statement
overlapping id first second version reason other =
    selects id first version reason ∷ selects id second version other ∷ updates 1 ∷ updates 0 ∷ []

abbrev pub recorded : ℕ → ℕ → ℕ → ℕ → ControllerUpdate
recorded id version target reason = record {
  pool_id = id;
  envelope_version = version + 1;
  target = target;
  reason = reason;
}

found_updated :
    (pool : ℕ) (f : Pool → Pool) (ps : List Pool) (p : Pool)
    → ((x : Pool) → (f x).pool_id ≡ x.pool_id)
    → find pool_key pool ps ≡ some p
    → find pool_key pool (update pool_key pool f ps) ≡ some (f p)
found_updated pool f ps p keeps found =
    rw (find-update pool_key pool pool f ps keeps, ==_refl pool, found) refl

-- The second update replaces the first, though both show the version that the first has used.
pub record IsOverwritten (id version reason other n m : ℕ) (p : Pool) (s t : Ledger) : Type 0 where
  pub row :
      find pool_key id t.pools
      ≡ some (record p { target = m; envelope_version = p.envelope_version + 1 + 1 })
  pub updates_recorded :
      t.controller_updates
      ≡ recorded id version m other ∷ recorded id version n reason ∷ s.controller_updates

select_accepted :
    (pool : ℕ) (target : ℤ) (version reason n : ℕ) (o : Overlap)
    → read_envelope pool target version o.ledger ≡ ok n
    → run_statement (selects pool target version reason) o ≡ record o {
      pending =
          record { pool_id = pool; target = n; version = version; reason = reason } ∷ o.pending;
    }
unfolding run_statement
select_accepted pool target version reason n o e = rw (e) refl

-- Two transactions of `update_target` that show one version and both pass the checks in the same
-- ledger both commit if their SELECTs come before their UPDATEs: the second target replaces the
-- first, the version grows by two, and two updates are recorded under the same version.
pub overlapping-IsOverwritten :
    (id : ℕ) (first second : ℤ) (version reason other : ℕ) (s : Ledger) (p : Pool) (n m : ℕ)
    → find pool_key id s.pools ≡ some p
    → read_envelope id first version s ≡ ok n
    → read_envelope id second version s ≡ ok m
    → IsOverwritten id version reason other n m p s
        (run_statements (overlapping id first second version reason other) (begin s)).ledger
unfolding run_statements run_statement pick write_target
overlapping-IsOverwritten id first second version reason other s p n m found one two =
    subst (IsOverwritten id version reason other n m p s) (sym ran) (record {
      row =
          found_updated id (retarget m) (update pool_key id (retarget n) s.pools) (retarget n p)
            (λ x. refl) (found_updated id (retarget n) s.pools p (λ x. refl) found);
      updates_recorded = refl;
    })
  where
    in_turn :
        (run_statements (updates 1 ∷ updates 0 ∷ []) (record {
          ledger = s;
          pending =
              record { pool_id = id; target = m; version = version; reason = other }
              ∷ record { pool_id = id; target = n; version = version; reason = reason }
              ∷ [];
        })).ledger
        ≡ write_target id m version other (write_target id n version reason s)
    in_turn = refl

    ran :
        (run_statements (overlapping id first second version reason other) (begin s)).ledger
        ≡ write_target id m version other (write_target id n version reason s)
    ran =
        ap
          (λ o.
            (run_statements (updates 1 ∷ updates 0 ∷ [])
              (run_statement (selects id second version other) o)).ledger)
          (select_accepted id first version reason n (begin s) one)
        ∙ ap (λ o. (run_statements (updates 1 ∷ updates 0 ∷ []) o).ledger)
            (select_accepted id second version other m
              (record {
                ledger = s;
                pending =
                    record { pool_id = id; target = n; version = version; reason = reason } ∷ [];
              })
              two)
        ∙ in_turn
