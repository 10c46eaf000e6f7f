-- ===== src/Language/Order.antt =====
-- language.py: the loop of `_repair_keeps_fixed_tokens` takes the first old token that fits. It finds
-- an order of the tokens whenever there is one.
use mta_runtime_intramind.Base.{
  ℕ, ◌≡◌, ◌↔◌, refl, sym, ap, ◌∙◌, subst, Bool, true, false, ◌⊎◌, inl, inr, List, [], ◌∷◌, arith,
  if◌then◌else◌, Bool-cases,
}
use mta_runtime_intramind.Language.Tokens.{
  has_han, same_token, same_tokens, is_number, walk, repair_keeps_fixed_tokens,
}

if_same : (b : Bool) → (if b then true else true) ≡ true
if_same true = refl
if_same false = refl

module _ (is_digit : ℕ → Bool) where
  -- The old tokens stand among the new ones in their order, and all else there is a number.
  pub data Extends : List (List ℕ) → List (List ℕ) → Type 0 where
    both_end : Extends [] []
    keep : (t : List ℕ) (old new : List (List ℕ)) → Extends old new → Extends (t ∷ old) (t ∷ new)
    insert :
        (t : List ℕ) (old new : List (List ℕ))
        → is_number is_digit t ≡ true
        → Extends old new
        → Extends old (t ∷ new)

  same_token-eq : (a b : List ℕ) → same_token a b ≡ true → a ≡ b
  same_token-eq [] [] e = refl
  same_token-eq [] (d ∷ ds) e = absurd (cc)
  same_token-eq (c ∷ cs) [] e = absurd (cc)
  same_token-eq (c ∷ cs) (d ∷ ds) e =
      let head : c ≡ d = ground arith in
      let tail : cs ≡ ds = same_token-eq cs ds (ground arith) in cc

  same_token_refl : (a : List ℕ) → same_token a a ≡ true
  same_token_refl [] = refl
  same_token_refl (c ∷ cs) = ground (arith, same_token_refl cs)

  walk-Extends : (old new : List (List ℕ)) → walk is_digit old new ≡ true → Extends old new
  unfolding walk
  walk-Extends [] [] e = both_end
  walk-Extends (o ∷ old) [] e = absurd (cc)
  walk-Extends [] (t ∷ new) e =
      insert t [] new (ground (arith, e)) (walk-Extends [] new (ground (arith, e)))
  walk-Extends (o ∷ old) (t ∷ new) e = elim (Bool-cases (same_token t o)) [
    | inl same ↦
        subst (λ x. Extends (x ∷ old) (t ∷ new)) (same_token-eq t o same)
          (keep t old new (walk-Extends old new (rw same at e)))
    | inr other ↦
        insert t (o ∷ old) new (ground (arith, e, other))
          (walk-Extends (o ∷ old) new (ground (arith, e, other)))
  ]

  -- A number at the head of the old tokens may stand among the extra ones.
  shorten :
      (o : List ℕ) (old new : List (List ℕ))
      → is_number is_digit o ≡ true
      → Extends (o ∷ old) new
      → Extends old new
  shorten o old [] number order = elim order [ ]
  shorten o old (_ ∷ new) number (keep _ _ _ rest) = insert o old new number rest
  shorten o old (t ∷ new) number (insert _ _ _ extra rest) =
      insert t old new extra (shorten o old new number rest)

  Extends-walk : (old new : List (List ℕ)) → Extends old new → walk is_digit old new ≡ true
  unfolding walk
  Extends-walk [] [] both_end = refl
  Extends-walk [] (t ∷ new) (insert _ _ _ number rest) =
      ground (arith, number, Extends-walk [] new rest)
  Extends-walk (t ∷ old) [] order = elim order [ ]
  Extends-walk (t ∷ old) (_ ∷ new) (keep _ _ _ rest) =
      rw (same_token_refl t) (Extends-walk old new rest)
  Extends-walk (o ∷ old) (t ∷ new) (insert _ _ _ number rest) = elim (Bool-cases (same_token t o)) [
    | inl same ↦ rw same (
        Extends-walk old new (
          shorten o old new (ap (is_number is_digit) (sym (same_token-eq t o same)) ∙ number) rest))
    | inr other ↦ ground (arith, other, number, Extends-walk (o ∷ old) new rest)
  ]

  same_tokens-eq : (xs ys : List (List ℕ)) → same_tokens xs ys ≡ true → xs ≡ ys
  same_tokens-eq [] [] e = refl
  same_tokens-eq [] (d ∷ ds) e = absurd (cc)
  same_tokens-eq (c ∷ cs) [] e = absurd (cc)
  same_tokens-eq (c ∷ cs) (d ∷ ds) e =
      let head : c ≡ d = same_token-eq c d (ground arith) in
      let tail : cs ≡ ds = same_tokens-eq cs ds (ground arith) in cc

  same_tokens_refl : (xs : List (List ℕ)) → same_tokens xs xs ≡ true
  same_tokens_refl [] = refl
  same_tokens_refl (c ∷ cs) = ground (arith, same_token_refl c, same_tokens_refl cs)

  -- A repair is accepted if, and only if, it has the fixed tokens of the original, or the original
  -- has Han, the repair has none, and the original's tokens stand in the repair in their order with
  -- nothing but numbers between them.
  pub repair_keeps_fixed_tokens-Extends :
      (fixed : List ℕ → List (List ℕ)) (original repaired : List ℕ)
      → (repair_keeps_fixed_tokens is_digit fixed original repaired ≡ true) ↔ (
          (fixed original ≡ fixed repaired)
          ⊎ ((has_han original ≡ true)
              × (has_han repaired ≡ false)
              × Extends (fixed original) (fixed repaired)))
  unfolding repair_keeps_fixed_tokens
  repair_keeps_fixed_tokens-Extends fixed original repaired =
      let old = fixed original in let new = fixed repaired in (accepted, kept)
    where
      accepted :
          repair_keeps_fixed_tokens is_digit fixed original repaired ≡ true
          → (fixed original ≡ fixed repaired)
            ⊎ ((has_han original ≡ true)
                × (has_han repaired ≡ false)
                × Extends (fixed original) (fixed repaired))
      accepted e = elim (Bool-cases (same_tokens (fixed original) (fixed repaired))) [
        | inl same ↦ inl (same_tokens-eq (fixed original) (fixed repaired) same)
        | inr other ↦ inr (
          ground (arith, e, other),
          ground (arith, e, other),
          walk-Extends (fixed original) (fixed repaired) (ground (arith, e, other)),
        )
      ]

      kept :
          ((fixed original ≡ fixed repaired)
            ⊎ ((has_han original ≡ true)
                × (has_han repaired ≡ false)
                × Extends (fixed original) (fixed repaired)))
          → repair_keeps_fixed_tokens is_digit fixed original repaired ≡ true
      kept (inl same) = rw (same, same_tokens_refl (fixed repaired)) refl
      kept (inr (han, none, order)) =
          rw (han, none, Extends-walk (fixed original) (fixed repaired) order)
            (if_same (same_tokens (fixed original) (fixed repaired)))
