-- ===== src/Config/Durations.antt =====
-- Every duration that is written as documented is read (backend/src/config/configuration.ts).
use docuai.Base.{some, ℕ, ◌*◌, ◌≡◌, Bool, true, false, ◌&&◌, [], ◌∷◌, ◌++◌, Text, is_empty}
use docuai.Config.{all_space, is_digit, digits_value, duration_unit}

abbrev pub all_digits : Text → Bool
all_digits [] = true
all_digits (c ∷ s) = is_digit c && all_digits s

-- The start of a text, if there is one, does not pass.
abbrev pub StartsWithout : (ℕ → Bool) → Text → Type 0
StartsWithout p [] = Unit
StartsWithout p (c ∷ s) = p c ≡ false

-- A duration as documented: digits, then a unit or none, with white space around them.
pub data Written : Text → ℕ → Type 0 where
  seconds :
      (before ds after : Text)
      → all_space before ≡ true
      → all_digits ds ≡ true
      → is_empty ds ≡ false
      → all_space after ≡ true
      → Written (before ++ (ds ++ after)) (digits_value 0 ds)
  units :
      (before ds between after : Text) (c unit : ℕ)
      → all_space before ≡ true
      → all_digits ds ≡ true
      → is_empty ds ≡ false
      → all_space between ≡ true
      → duration_unit c ≡ some unit
      → all_space after ≡ true
      → Written (before ++ (ds ++ (between ++ c ∷ after))) (digits_value 0 ds * unit)
