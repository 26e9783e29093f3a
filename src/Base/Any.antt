-- ===== src/Base/Any.antt =====
-- No unit of a text passes a test: this outlives cutting, removing and trimming.
use Prim.Native.Nat.{ℕ, zero, suc}
use mathlib.Core.Path.{◌≡◌, refl}
use mathlib.Core.Bool.{Bool, false}
use mathlib.Core.List.{[], ◌∷◌, ◌++◌}
use native.Mathlib.Omega.{arith}
use docuai.Base.Lists.{any, take}
use docuai.Base.Texts.{Text, is_space, drop_while, drop_end, remove_units, trim}

pub any_append :
    (p : ℕ → Bool) (s t : Text) → any p s ≡ false → any p t ≡ false → any p (s ++ t) ≡ false
any_append p [] t a b = b
any_append p (c ∷ s) t a b = ground (arith, any_append p s t)

pub any-take : (p : ℕ → Bool) (n : ℕ) (s : Text) → any p s ≡ false → any p (take n s) ≡ false
any-take p zero s h = refl
any-take p (suc n) [] h = refl
any-take p (suc n) (c ∷ s) h = ground (arith, any-take p n s)

pub any-drop_while : (p q : ℕ → Bool) (s : Text) → any p s ≡ false → any p (drop_while q s) ≡ false
unfolding drop_while
any-drop_while p q [] h = refl
any-drop_while p q (c ∷ s) h = ground (arith, any-drop_while p q s)

pub any-drop_end : (p q : ℕ → Bool) (s : Text) → any p s ≡ false → any p (drop_end q s) ≡ false
unfolding drop_end
any-drop_end p q [] h = refl
any-drop_end p q (c ∷ s) h = ground (arith, any-drop_end p q s)

pub any-remove_units :
    (p q : ℕ → Bool) (s : Text) → any p s ≡ false → any p (remove_units q s) ≡ false
unfolding remove_units
any-remove_units p q [] h = refl
any-remove_units p q (c ∷ s) h = ground (arith, any-remove_units p q s)

pub any-remove_units_self : (p : ℕ → Bool) (s : Text) → any p (remove_units p s) ≡ false
unfolding remove_units
any-remove_units_self p [] = refl
any-remove_units_self p (c ∷ s) = ground (arith, any-remove_units_self p s)

pub any-trim : (p : ℕ → Bool) (s : Text) → any p s ≡ false → any p (trim s) ≡ false
unfolding trim
any-trim p s h = any-drop_end p is_space (drop_while is_space s) (any-drop_while p is_space s h)
