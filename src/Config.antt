-- ===== src/Config.antt =====
-- backend/src/config/configuration.ts: how the values of the environment are read. A number is exact
-- here, as a JavaScript number is up to 2^53.
pub mod Durations
mod Tests
use docuai.Base.{
  ◌||◌, ℕ, ◌+◌, ◌-◌, ◌*◌, Bool, true, false, not, ◌&&◌, Option, none, some, List, [], ◌∷◌, Text,
  same_text, includes_text, is_space, drop_while, trim, split, map, any, leb, ◌==◌, if◌then◌else◌,
  is_empty,
}

abbrev pub is_digit : ℕ → Bool
is_digit c = leb b'0' c && leb c b'9'

-- The digits at the start of a text, and what follows them.
pub span_digits : Text → Text × Text
span_digits [] = ([], [])
span_digits (c ∷ s) =
    let (ds, rest) = span_digits s in if is_digit c then (c ∷ ds, rest) else ([], c ∷ s)

-- `Number.parseInt(digits, 10)`, behind digits that were read already
pub digits_value : (read : ℕ) → Text → ℕ
digits_value read [] = read
digits_value read (c ∷ s) = digits_value (read * 10 + (c - b'0')) s

-- DURATION_UNITS, in either case
pub duration_unit : ℕ → Option ℕ
duration_unit c =
    if c == b's' || c == b'S'
    then some 1
    else if c == b'm' || c == b'M'
    then some 60
    else if c == b'h' || c == b'H'
    then some 3600
    else if c == b'd' || c == b'D'
    then some 86400
    else none

abbrev pub all_space : Text → Bool
all_space [] = true
all_space (c ∷ s) = is_space c && all_space s

-- What follows the digits and white space: the end, or a unit and white space.
pub unit_of : Text → Option ℕ
unfolding duration_unit
unit_of [] = some 1
unit_of (c ∷ s) = if all_space s then duration_unit c else none

-- The groups of the match: the digits, and what follows them.
pub read_duration : Text × Text → Option ℕ
unfolding unit_of digits_value
read_duration (ds, rest) = if is_empty ds then none else elim (unit_of (drop_while is_space rest)) [
  | none ↦ none
  | some unit ↦ some (digits_value 0 ds * unit)
]

-- `none` where the source throws
pub parse_duration_seconds : Text → Option ℕ
unfolding span_digits read_duration
parse_duration_seconds value = read_duration (span_digits (drop_while is_space value))

pub empty_to_null : Option Text → Option Text
empty_to_null none = none
empty_to_null (some s) = if is_empty (trim s) then none else some (trim s)

-- `['1', 'true', 'yes', 'on']`
abbrev true_words : List Text
true_words =
    (b'1' ∷ [])
    ∷ (b't' ∷ b'r' ∷ b'u' ∷ b'e' ∷ [])
    ∷ (b'y' ∷ b'e' ∷ b's' ∷ [])
    ∷ (b'o' ∷ b'n' ∷ [])
    ∷ []

pub to_bool : (lower : Text → Text) → Option Text → (fallback : Bool) → Bool
to_bool lower none fallback = fallback
to_bool lower (some s) fallback =
    if is_empty s then fallback else includes_text true_words (lower s)
