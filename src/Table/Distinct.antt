-- ===== src/Table/Distinct.antt =====
-- The rows of a query have pairwise different keys, in whatever order it gives them.
use mta_runtime_intramind.Base.{
  ℕ, ◌≡◌, Bool, true, false, List, [], ◌∷◌, arith, leb, ◌==◌, if_intro, select,
}
use mta_runtime_intramind.Table.{remove, rows, place_row, order_by}

module _ {ℓ} {A : Type ℓ} where
  abbrev pub All {κ} : (A → Type κ) → List A → Type κ
  All P [] = Unit
  All P (x ∷ xs) = P x × All P xs

  abbrev pub Differs : (A → ℕ) → ℕ → A → Type 0
  Differs key k x = (k == key x) ≡ false

  abbrev pub Distinct : (A → ℕ) → List A → Type 0
  Distinct key [] = Unit
  Distinct key (x ∷ xs) = All (Differs key (key x)) xs × Distinct key xs

  pub All-select {κ} :
      (P : A → Type κ) (p : A → Bool) (xs : List A) → All P xs → All P (select p xs)
  All-select P p [] all = tt
  All-select P p (x ∷ xs) all =
      let rest = All-select P p xs all.1 in
      if_intro (All P) (p x) (x ∷ select p xs) (select p xs) (λ _. (all.0, rest)) (λ _. rest)

  pub All-map {κ ι} :
      {P : A → Type κ} {Q : A → Type ι}
      → ((x : A) → P x → Q x)
      → (xs : List A) → All P xs
      → All Q xs
  All-map f [] all = tt
  All-map f (x ∷ xs) all = (f x all.0, All-map f xs all.1)

  pub All-chosen : (p : A → Bool) (xs : List A) → All (λ x. p x ≡ true) (select p xs)
  All-chosen p [] = tt
  All-chosen p (x ∷ xs) =
      if_intro (All (λ y. p y ≡ true)) (p x) (x ∷ select p xs) (select p xs)
        (λ h. (h, All-chosen p xs)) (λ _. All-chosen p xs)

  All-remove {κ} :
      (P : A → Type κ) (key : A → ℕ) (k : ℕ) (xs : List A) → All P xs → All P (remove key k xs)
  unfolding remove
  All-remove P key k [] all = tt
  All-remove P key k (x ∷ xs) all =
      let rest = All-remove P key k xs all.1 in
      if_intro (All P) (key x == k) (remove key k xs) (x ∷ remove key k xs) (λ _. rest)
        (λ _. (all.0, rest))

  All-place_row {κ} :
      (P : A → Type κ) (column : A → ℕ) (x : A) (xs : List A)
      → P x
      → All P xs
      → All P (place_row column x xs)
  unfolding place_row
  All-place_row P column x [] first all = (first, tt)
  All-place_row P column x (y ∷ ys) first all =
      if_intro (All P) (leb (column x) (column y)) (x ∷ y ∷ ys) (y ∷ place_row column x ys)
        (λ _. (first, all)) (λ _. (all.0, All-place_row P column x ys first all.1))

  pub All-order_by {κ} :
      (P : A → Type κ) (column : A → ℕ) (xs : List A) → All P xs → All P (order_by column xs)
  unfolding order_by
  All-order_by P column [] all = tt
  All-order_by P column (x ∷ xs) all =
      All-place_row P column x (order_by column xs) all.0 (All-order_by P column xs all.1)

  pub Distinct-select :
      (key : A → ℕ) (p : A → Bool) (xs : List A) → Distinct key xs → Distinct key (select p xs)
  Distinct-select key p [] apart = tt
  Distinct-select key p (x ∷ xs) apart =
      let rest = Distinct-select key p xs apart.1 in
      if_intro (Distinct key) (p x) (x ∷ select p xs) (select p xs)
        (λ _. (All-select (Differs key (key x)) p xs apart.0, rest)) (λ _. rest)

  Distinct-remove :
      (key : A → ℕ) (k : ℕ) (xs : List A) → Distinct key xs → Distinct key (remove key k xs)
  unfolding remove
  Distinct-remove key k [] apart = tt
  Distinct-remove key k (x ∷ xs) apart =
      let rest = Distinct-remove key k xs apart.1 in
      if_intro (Distinct key) (key x == k) (remove key k xs) (x ∷ remove key k xs) (λ _. rest)
        (λ _. (All-remove (Differs key (key x)) key k xs apart.0, rest))

  All-removed : (key : A → ℕ) (k : ℕ) (xs : List A) → All (Differs key k) (remove key k xs)
  unfolding remove
  All-removed key k [] = tt
  All-removed key k (x ∷ xs) =
      let rest = All-removed key k xs in
      if_intro (All (Differs key k)) (key x == k) (remove key k xs) (x ∷ remove key k xs)
        (λ _. rest) (λ other. (ground arith, rest))

  pub Distinct-rows : (key : A → ℕ) (xs : List A) → Distinct key (rows key xs)
  unfolding rows
  Distinct-rows key [] = tt
  Distinct-rows key (x ∷ xs) = (
    All-removed key (key x) (rows key xs),
    Distinct-remove key (key x) (rows key xs) (Distinct-rows key xs),
  )

  Distinct-place_row :
      (key column : A → ℕ) (x : A) (xs : List A)
      → All (Differs key (key x)) xs
      → Distinct key xs
      → Distinct key (place_row column x xs)
  unfolding place_row
  Distinct-place_row key column x [] others apart = (tt, tt)
  Distinct-place_row key column x (y ∷ ys) others apart =
      if_intro (Distinct key) (leb (column x) (column y)) (x ∷ y ∷ ys) (y ∷ place_row column x ys)
        (λ _. (others, apart))
        λ _. (
          All-place_row (Differs key (key y)) column x ys (ground (arith, others.0)) apart.0,
          Distinct-place_row key column x ys others.1 apart.1,
        )

  pub Distinct-order_by :
      (key column : A → ℕ) (xs : List A) → Distinct key xs → Distinct key (order_by column xs)
  unfolding order_by
  Distinct-order_by key column [] apart = tt
  Distinct-order_by key column (x ∷ xs) apart =
      Distinct-place_row key column x (order_by column xs)
        (All-order_by (Differs key (key x)) column xs apart.0)
        (Distinct-order_by key column xs apart.1)
