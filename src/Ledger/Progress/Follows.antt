-- ===== src/Ledger/Progress/Follows.antt =====
-- A table after another: every row is still there, and has moved along a relation.
use mta_runtime_intramind.Base.{
  ℕ, ◌≡◌, refl, sym, ◌∙◌, none, some, List, ◌∷◌, true, Bool-cases, inl, inr, ◌==◌, ==→eq,
}
use mta_runtime_intramind.Table.{find, update, find-update, KeepsKey}

none-some {ℓ} : {A : Type ℓ} {x : A} → none ≡ some x → ⊥
none-some e = cc

module _ {ℓ κ} {A : Type ℓ} (key : A → ℕ) (R : A → A → Type κ) where
  pub record Follows (xs ys : List A) : Type (ℓ ⊔ κ) where
    pub row :
        (id : ℕ) (x : A) → find key id xs ≡ some x → (y : A) × (find key id ys ≡ some y) × R x y

  pub Follows-refl : ((x : A) → R x x) → (xs : List A) → Follows xs xs
  Follows-refl same xs = record { row = λ id x e. (x, e, same x) }

  pub Follows-trans :
      ((x y z : A) → R x y → R y z → R x z)
      → {xs ys zs : List A} → Follows xs ys
      → Follows ys zs
      → Follows xs zs
  Follows-trans join f g = record {
    row = λ id x e.
        let (y, h, r) = f.row id x e in let (z, k, q) = g.row id y h in (z, k, join x y z r q);
  }

  -- An update moves the row that it finds.
  pub Follows-update :
      ((x : A) → R x x)
      → (k : ℕ) (f : A → A) (xs : List A) → KeepsKey key f
      → ((x : A) → find key k xs ≡ some x → R x (f x))
      → Follows xs (update key k f xs)
  Follows-update same k f xs keeps moves = record { row = moved }
    where
      at_key :
          (id : ℕ) (x : A)
          → (k == id) ≡ true
          → find key id xs ≡ some x
          → find key id (update key k f xs) ≡ some (f x)
      at_key id x here e = rw (find-update key id k f xs keeps, here, e) refl

      moved :
          (id : ℕ) (x : A)
          → find key id xs ≡ some x
          → (y : A) × (find key id (update key k f xs) ≡ some y) × R x y
      moved id x e = elim (Bool-cases (k == id)) [
        | inl here ↦ (f x, at_key id x here e, moves x (rw (==→eq k id here) e))
        | inr there ↦ (x, rw (find-update key id k f xs keeps, there) e, same x)
      ]

  -- A row under a new key hides none.
  pub Follows-insert :
      ((x : A) → R x x) → (a : A) (xs : List A) → find key (key a) xs ≡ none → Follows xs (a ∷ xs)
  unfolding find
  Follows-insert same a xs fresh = record { row = kept }
    where
      hidden : (id : ℕ) (x : A) → key a ≡ id → find key id xs ≡ some x → ⊥
      hidden id x here e = none-some {x = x} (sym fresh ∙ rw here e)

      kept :
          (id : ℕ) (x : A)
          → find key id xs ≡ some x
          → (y : A) × (find key id (a ∷ xs) ≡ some y) × R x y
      kept id x e = elim (Bool-cases (key a == id)) [
        | inl here ↦ absurd (hidden id x (==→eq (key a) id here) e)
        | inr there ↦ (x, rw there e, same x)
      ]
