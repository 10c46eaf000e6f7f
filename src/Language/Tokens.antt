-- ===== src/Language/Tokens.antt =====
-- language.py: `_HAN`, `_NUMBER` and `_repair_keeps_fixed_tokens`. A text is the list of its code
-- points. `fixed` stands for `_FIXED.findall` and `is_digit` for the digits of Unicode, `\d`.
use mta_runtime_intramind.Base.{
  ℕ, Bool, true, false, not, ◌&&◌, ◌||◌, List, [], ◌∷◌, leb, ◌==◌, if◌then◌else◌, any,
}

abbrev pub between : ℕ → ℕ → ℕ → Bool
between low high c = leb low c && leb c high

-- The six ranges of `_HAN`.
abbrev pub is_han : ℕ → Bool
is_han c =
    between 13312 19903 c
    || between 19968 40959 c
    || between 63744 64255 c
    || between 131072 192095 c
    || between 194560 195103 c
    || between 196608 205743 c

-- `_HAN.search`
unfoldable pub has_han : List ℕ → Bool
has_han text = any is_han text

abbrev pub same_token : List ℕ → List ℕ → Bool
same_token [] [] = true
same_token [] (d ∷ ds) = false
same_token (c ∷ cs) [] = false
same_token (c ∷ cs) (d ∷ ds) = c == d && same_token cs ds

abbrev pub same_tokens : List (List ℕ) → List (List ℕ) → Bool
same_tokens [] [] = true
same_tokens [] (d ∷ ds) = false
same_tokens (c ∷ cs) [] = false
same_tokens (c ∷ cs) (d ∷ ds) = same_token c d && same_tokens cs ds

-- `[.,:/-]`
abbrev pub is_separator : ℕ → Bool
is_separator c = c == 46 || c == 44 || c == 58 || c == 47 || c == 45

module _ (is_digit : ℕ → Bool) where
  -- Whether `\d+(?:[.,:/-]\d+)*` matches the rest, after a digit or after a separator.
  unfoldable pub in_number : Bool → List ℕ → Bool
  in_number after_digit [] = after_digit
  in_number after_digit (c ∷ cs) =
      let digit = in_number true cs in
      let separator = in_number false cs in
      if is_digit c then digit else after_digit && is_separator c && separator

  -- `_NUMBER.fullmatch`
  unfoldable pub is_number : List ℕ → Bool
  unfolding in_number
  is_number text = in_number false text

  -- The loop over the new tokens; what is left of the old ones stands for the index into them.
  unfoldable pub walk : List (List ℕ) → List (List ℕ) → Bool
  unfolding is_number
  walk [] [] = true
  walk (o ∷ old) [] = false
  walk [] (t ∷ new) = let rest = walk [] new in is_number t && rest
  walk (o ∷ old) (t ∷ new) =
      let kept = walk old new in
      let extra = walk (o ∷ old) new in if same_token t o then kept else is_number t && extra

  -- `_repair_keeps_fixed_tokens`
  unfoldable pub repair_keeps_fixed_tokens : (List ℕ → List (List ℕ)) → List ℕ → List ℕ → Bool
  unfolding has_han walk
  repair_keeps_fixed_tokens fixed original repaired =
      if same_tokens (fixed original) (fixed repaired)
      then true
      else if not (has_han original) || has_han repaired
      then false
      else walk (fixed original) (fixed repaired)
