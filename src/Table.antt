-- ===== src/Table.antt =====
-- A PostgreSQL table as the list of its rows. Under a primary key at most one row answers, so an
-- UPDATE by key changes the first row that has it; PostgreSQL refuses an INSERT that repeats a key.
pub mod Distinct
pub mod Members
use mta_runtime_intramind.Base.{
  ℕ, ◌+◌, ◌≤◌, ◌≡◌, refl, Bool, Option, none, some, List, [], ◌∷◌, arith, leb, ◌==◌, if◌then◌else◌,
  sum,
}
use mathlib.Core.Option

module _ {ℓ} {A : Type ℓ} where
  unfoldable pub find : (A → ℕ) → ℕ → List A → Option A
  find key k [] = none
  find key k (x ∷ xs) = if key x == k then some x else find key k xs

  -- `UPDATE … WHERE key = k`
  unfoldable pub update : (A → ℕ) → ℕ → (A → A) → List A → List A
  update key k f [] = []
  update key k f (x ∷ xs) = if key x == k then f x ∷ xs else x ∷ update key k f xs

  -- `UPDATE … WHERE p`
  unfoldable pub update_where : (A → Bool) → (A → A) → List A → List A
  update_where p f [] = []
  update_where p f (x ∷ xs) = (if p x then f x else x) ∷ update_where p f xs

  -- An INSERT under a primary key: `none` is the unique violation.
  unfoldable pub insert : (A → ℕ) → A → List A → Option (List A)
  unfolding find
  insert key x xs = elim (find key (key x) xs) [ none ↦ some (x ∷ xs) | some old ↦ none ]

  -- `DELETE … WHERE key = k`
  unfoldable pub remove : (A → ℕ) → ℕ → List A → List A
  remove key k [] = []
  remove key k (x ∷ xs) = let rest = remove key k xs in if key x == k then rest else x ∷ rest

  -- The rows that a query sees: under the primary key, one for each key.
  unfoldable pub rows : (A → ℕ) → List A → List A
  unfolding remove
  rows key [] = []
  rows key (x ∷ xs) = x ∷ remove key (key x) (rows key xs)

  unfoldable pub place_row : (A → ℕ) → A → List A → List A
  place_row column x [] = x ∷ []
  place_row column x (y ∷ ys) =
      let rest = place_row column x ys in if leb (column x) (column y) then x ∷ y ∷ ys else y ∷ rest

  -- `ORDER BY column`
  unfoldable pub order_by : (A → ℕ) → List A → List A
  unfolding place_row
  order_by column [] = []
  order_by column (x ∷ xs) = place_row column x (order_by column xs)

  abbrev pub KeepsKey : (A → ℕ) → (A → A) → Type ℓ
  KeepsKey key f = (a : A) → key (f a) ≡ key a

  pub find-key : (key : A → ℕ) (k : ℕ) (xs : List A) (x : A) → find key k xs ≡ some x → key x ≡ k
  unfolding find
  find-key key k [] x e = cc
  find-key key k (y ∷ xs) x e = ground (arith, find-key key k xs x)

  pub find-update :
      (key : A → ℕ) (j k : ℕ) (f : A → A) (xs : List A)
      → KeepsKey key f
      → find key j (update key k f xs)
        ≡ (if k == j then Option.map f (find key j xs) else find key j xs)
  unfolding find update
  find-update key j k f [] keeps = ground arith
  find-update key j k f (x ∷ xs) keeps = ground (arith, keeps x, find-update key j k f xs keeps)

  pub find-update_where :
      (key : A → ℕ) (j : ℕ) (p : A → Bool) (f : A → A) (xs : List A)
      → KeepsKey key f
      → find key j (update_where p f xs) ≡ Option.map (λ a. if p a then f a else a) (find key j xs)
  unfolding find update_where
  find-update_where key j p f [] keeps = refl
  find-update_where key j p f (x ∷ xs) keeps =
      ground (arith, keeps x, find-update_where key j p f xs keeps)

  -- What an aggregate changes by when one row is updated.
  pub sum-update :
      (key : A → ℕ) (k : ℕ) (f : A → A) (g : A → ℕ) (xs : List A) (x : A)
      → find key k xs ≡ some x
      → sum g (update key k f xs) + g x ≡ sum g xs + g (f x)
  unfolding find update
  sum-update key k f g [] x e = cc
  sum-update key k f g (y ∷ xs) x e = ground (arith, sum-update key k f g xs x)

  pub sum-eq : (g h : A → ℕ) (xs : List A) → ((a : A) → g a ≡ h a) → sum g xs ≡ sum h xs
  sum-eq g h [] same = refl
  sum-eq g h (x ∷ xs) same = ground (arith, same x, sum-eq g h xs same)

  pub le-sum :
      (key : A → ℕ) (k : ℕ) (g : A → ℕ) (xs : List A) (x : A)
      → find key k xs ≡ some x
      → g x ≤ sum g xs
  unfolding find
  le-sum key k g [] x e = cc
  le-sum key k g (y ∷ xs) x e = ground (arith, le-sum key k g xs x)

  pub update-same : (key : A → ℕ) (k : ℕ) (xs : List A) → update key k (λ x. x) xs ≡ xs
  unfolding update
  update-same key k [] = refl
  update-same key k (x ∷ xs) = ground (arith, update-same key k xs)

  pub update-update :
      (key : A → ℕ) (k : ℕ) (f g : A → A) (xs : List A)
      → KeepsKey key f
      → update key k g (update key k f xs) ≡ update key k (λ x. g (f x)) xs
  unfolding update
  update-update key k f g [] keeps = refl
  update-update key k f g (x ∷ xs) keeps = ground (arith, keeps x, update-update key k f g xs keeps)
