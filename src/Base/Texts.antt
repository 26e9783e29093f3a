-- ===== src/Base/Texts.antt =====
-- Texts as lists of UTF-16 code units, which is what JavaScript measures and slices.
use Prim.Native.Nat.{ℕ}
use mathlib.Core.Path.{◌≡◌, refl, ap}
use mathlib.Core.Bool.{Bool, true, false, ◌&&◌, ◌||◌}
use mathlib.Core.Option.{Option, none, some}
use mathlib.Core.List.{List, [], ◌∷◌, ◌++◌}
use native.Mathlib.Omega.{arith}
use docuai.Base.Tests.{==_refl, leb, ◌==◌, if◌then◌else◌}

abbrev pub Text : Type 0
Text = List ℕ

-- `a === b`
abbrev pub same_text : Text → Text → Bool
same_text [] [] = true
same_text (a ∷ s) (b ∷ t) = a == b && same_text s t
same_text _ _ = false

-- `list.includes(text)`
abbrev pub includes_text : List Text → Text → Bool
includes_text [] s = false
includes_text (t ∷ ts) s = same_text s t || includes_text ts s

-- White space and line ends, as `trim` knows them.
abbrev pub is_space : ℕ → Bool
is_space c =
    (leb 9 c && leb c 13)
    || c == 32
    || c == 0xa0
    || c == 0x1680
    || (leb 0x2000 c && leb c 0x200a)
    || c == 0x2028
    || c == 0x2029
    || c == 0x202f
    || c == 0x205f
    || c == 0x3000
    || c == 0xfeff

unfoldable pub drop_while : (ℕ → Bool) → Text → Text
drop_while p [] = []
drop_while p (c ∷ s) = if p c then drop_while p s else c ∷ s

-- Drops the longest end of which every unit passes.
unfoldable pub drop_end : (ℕ → Bool) → Text → Text
drop_end p [] = []
drop_end p (c ∷ s) = elim (drop_end p s) [ [] ↦ if p c then [] else c ∷ [] | d ∷ t ↦ c ∷ d ∷ t ]

unfoldable pub trim : Text → Text
unfolding drop_while drop_end
trim s = drop_end is_space (drop_while is_space s)

-- `split(c)[0]`
unfoldable pub before : ℕ → Text → Text
before c [] = []
before c (d ∷ s) = if d == c then [] else d ∷ before c s

-- `slice(lastIndexOf(c) + 1)`, if the unit occurs.
unfoldable pub after_last : ℕ → Text → Option Text
after_last c [] = none
after_last c (d ∷ s) = elim (after_last c s) [
  | none ↦ if d == c then some s else none
  | some t ↦ some t
]

-- `replace(/[…]/g, '')`
unfoldable pub remove_units : (ℕ → Bool) → Text → Text
remove_units p [] = []
remove_units p (c ∷ s) = if p c then remove_units p s else c ∷ remove_units p s

-- `replace(/^"|"$/g, '')`
abbrev is_quote : ℕ → Bool
is_quote c = c == b'"'

abbrev drop_quote : Text → Text
drop_quote [] = []
drop_quote (c ∷ s) = if is_quote c then s else c ∷ s

unquoted_end : Text → Text
unquoted_end [] = []
unquoted_end (c ∷ s) = elim s [
  | [] ↦ if is_quote c then [] else c ∷ []
  | _ ∷ _ ↦ c ∷ unquoted_end s
]

pub strip_quotes : Text → Text
unfolding unquoted_end
strip_quotes s = unquoted_end (drop_quote s)

pub same_text→eq : (s t : Text) → same_text s t ≡ true → s ≡ t
same_text→eq [] [] h = refl
same_text→eq (a ∷ s) (b ∷ t) h = ground (arith, same_text→eq s t)
same_text→eq [] (b ∷ t) h = absurd (ground arith)
same_text→eq (a ∷ s) [] h = absurd (ground arith)

pub same_text_refl : (s : Text) → same_text s s ≡ true
same_text_refl [] = refl
same_text_refl (c ∷ s) = ground (arith, ==_refl c, same_text_refl s)

unquoted_end-append : (s : Text) → unquoted_end (s ++ b'"' ∷ []) ≡ s
unfolding unquoted_end
unquoted_end-append [] = refl
unquoted_end-append (c ∷ []) = refl
unquoted_end-append (c ∷ d ∷ s) = ap (λ t. c ∷ t) (unquoted_end-append (d ∷ s))

-- Between its quotes stands the text itself.
pub strip_quotes-quoted : (s : Text) → strip_quotes (b'"' ∷ s ++ b'"' ∷ []) ≡ s
unfolding strip_quotes
strip_quotes-quoted s = unquoted_end-append s
