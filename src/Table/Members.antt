-- ===== src/Table/Members.antt =====
-- The rows that a query gives: those of the table that its condition selects, in another order.
use mta_runtime_intramind.Base.{
  ℕ, ◌≡◌, refl, sym, ap, ◌∙◌, ◌⊎◌, some, Bool, true, false, List, [], ◌∷◌, arith, leb, ◌==◌,
  if◌then◌else◌, if_intro, select, inl, inr,
}
use mta_runtime_intramind.Table.{find, remove, rows, place_row, order_by, find-key}

module _ {A : Type 0} where
  abbrev pub In : A → List A → Type 0
  In x [] = ⊥
  In x (y ∷ ys) = (x ≡ y) ⊎ In x ys

  pub In-select : (p : A → Bool) (x : A) (xs : List A) → p x ≡ true → In x xs → In x (select p xs)
  In-select p x [] chosen mem = mem
  In-select p x (y ∷ ys) chosen (inl same) = rw (sym (ap p same) ∙ chosen) (inl same)
  In-select p x (y ∷ ys) chosen (inr mem) =
      let rest = In-select p x ys chosen mem in
      if_intro (In x) (p y) (y ∷ select p ys) (select p ys) (λ _. inr rest) (λ _. rest)

  In-place_row :
      (column : A → ℕ) (x y : A) (xs : List A) → In x (y ∷ xs) → In x (place_row column y xs)
  unfolding place_row
  In-place_row column x y [] mem = mem
  In-place_row column x y (z ∷ zs) mem =
      if_intro (In x) (leb (column y) (column z)) (y ∷ z ∷ zs) (z ∷ place_row column y zs)
        (λ _. mem) (λ _. further mem (λ m. In-place_row column x y zs m))
    where
      further :
          In x (y ∷ z ∷ zs)
          → (In x (y ∷ zs) → In x (place_row column y zs))
          → In x (z ∷ place_row column y zs)
      further (inl same) on = inr (on (inl same))
      further (inr (inl same)) on = inl same
      further (inr (inr mem)) on = inr (on (inr mem))

  pub In-order_by : (column : A → ℕ) (x : A) (xs : List A) → In x xs → In x (order_by column xs)
  unfolding order_by
  In-order_by column x [] mem = mem
  In-order_by column x (y ∷ ys) (inl same) = In-place_row column x y (order_by column ys) (inl same)
  In-order_by column x (y ∷ ys) (inr mem) =
      In-place_row column x y (order_by column ys) (inr (In-order_by column x ys mem))

  In-remove :
      (key : A → ℕ) (k : ℕ) (x : A) (xs : List A)
      → (key x == k) ≡ false
      → In x xs
      → In x (remove key k xs)
  unfolding remove
  In-remove key k x [] other mem = mem
  In-remove key k x (y ∷ ys) other (inl same) =
      rw (ap (λ z. key z == k) (sym same) ∙ other) (inl same)
  In-remove key k x (y ∷ ys) other (inr mem) =
      let rest = In-remove key k x ys other mem in
      if_intro (In x) (key y == k) (remove key k ys) (y ∷ remove key k ys) (λ _. rest)
        (λ _. inr rest)

  -- The row that a key finds is among the rows of a query.
  pub In-rows :
      (key : A → ℕ) (k : ℕ) (x : A) (xs : List A) → find key k xs ≡ some x → In x (rows key xs)
  unfolding find rows
  In-rows key k x [] e = absurd (cc)
  In-rows key k x (y ∷ ys) e = first (key y == k) refl e λ h. In-rows key k x ys h
    where
      first :
          (test : Bool)
          → (key y == k) ≡ test
          → (if test then some y else find key k ys) ≡ some x
          → (find key k ys ≡ some x → In x (rows key ys))
          → In x (y ∷ remove key (key y) (rows key ys))
      first true same e rest = inl (cc)
      first false other e rest =
          inr
            (In-remove key (key y) x (rows key ys) (ground (arith, find-key key k ys x e)) (rest e))
