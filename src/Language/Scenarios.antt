-- ===== src/Language/Scenarios.antt =====
-- language.py: a repair that adds a number.
use mta_runtime_intramind.Base.{
  ℕ, ◌≡◌, ◌↔◌, ◌⊎◌, refl, Bool, true, false, List, [], ◌∷◌, if◌then◌else◌,
}
use mta_runtime_intramind.Language.Tokens.{
  between, has_han, walk, is_number, in_number, repair_keeps_fixed_tokens,
}
use mta_runtime_intramind.Language.Order.{Extends, repair_keeps_fixed_tokens-Extends}

abbrev ascii_digit : ℕ → Bool
ascii_digit c = between 48 57 c

abbrev original : List ℕ
original = 19990 ∷ []

-- Each digit is a token by itself.
abbrev fixed_of : List ℕ → List (List ℕ)
fixed_of [] = []
fixed_of (c ∷ cs) = let rest = fixed_of cs in if ascii_digit c then (c ∷ []) ∷ rest else rest

is_accepted : repair_keeps_fixed_tokens ascii_digit fixed_of original (97 ∷ 49 ∷ []) ≡ true
unfolding repair_keeps_fixed_tokens has_han walk is_number in_number
is_accepted = refl

repair_keeps_fixed_tokens-Extends_example :
    (repair_keeps_fixed_tokens ascii_digit fixed_of original (97 ∷ 49 ∷ []) ≡ true) ↔ (
      (fixed_of original ≡ fixed_of (97 ∷ 49 ∷ []))
      ⊎ ((has_han original ≡ true)
          × (has_han (97 ∷ 49 ∷ []) ≡ false)
          × Extends ascii_digit (fixed_of original) (fixed_of (97 ∷ 49 ∷ []))))
repair_keeps_fixed_tokens-Extends_example =
    repair_keeps_fixed_tokens-Extends ascii_digit fixed_of original (97 ∷ 49 ∷ [])
