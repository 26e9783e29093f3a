-- ===== src/World/Keeps.antt =====
-- Properties of the world that an action keeps, whichever way it ends.
use docuai.Base.{
  Bool, true, false, if◌then◌else◌, ◌≡◌, refl, Option, none, some, ok, Result-cases, inl, inr,
}
use docuai.World.{World, Action, ◌>>=◌, ◌>>◌, or_throw}

abbrev pub Keeps {ℓ} : {E : Type 0} {A : Type ℓ} → (World → Type 0) → Action E A → Type 0
Keeps P m = (w : World) → P w → P (m w).1

module _ {E : Type 0} (P : World → Type 0) where
  -- The rest of an action may use what its first part returned.
  pub Keeps-then {ℓ κ} :
      {A : Type ℓ} {B : Type κ} (m : Action E A) (f : A → Action E B)
      → Keeps P m
      → ((w : World) (a : A) → P w → (m w).0 ≡ ok a → P (m w).1 → P (f a (m w).1).1)
      → Keeps P (m >>= f)
  Keeps-then m f first rest w p = elim (Result-cases (m w).0) [
    | inl (a, e) ↦ rw (◌>>=◌, e) (rest w a p e (first w p))
    | inr (x, e) ↦ rw (◌>>=◌, e) (first w p)
  ]

  pub Keeps-bind {ℓ κ} :
      {A : Type ℓ} {B : Type κ} (m : Action E A) (f : A → Action E B)
      → Keeps P m
      → ((a : A) → Keeps P (f a))
      → Keeps P (m >>= f)
  Keeps-bind m f first rest = Keeps-then m f first (λ w a p e q. rest a (m w).1 q)

  pub Keeps-seq {ℓ} :
      {B : Type ℓ} (m : Action E (Unit {0})) (k : Action E B)
      → Keeps P m
      → Keeps P k
      → Keeps P (m >> k)
  Keeps-seq m k first rest = Keeps-bind m (λ _. k) first (λ _. rest)

  pub or_throw-Keeps {ℓ} :
      {A : Type ℓ} (o : Option A) (m : Action E E) → Keeps P m → Keeps P (or_throw o m)
  or_throw-Keeps none m failing w p = elim (Result-cases (m w).0) [
    | inl (a, e) ↦ rw (or_throw, e) (failing w p)
    | inr (x, e) ↦ rw (or_throw, e) (failing w p)
  ]
  or_throw-Keeps (some a) m failing w p = p

  -- The value of the option is at hand in the rest of the action.
  pub Keeps-or_throw {ℓ κ} :
      {A : Type ℓ} {B : Type κ} (o : Option A) (m : Action E E) (f : A → Action E B)
      → Keeps P m
      → ((a : A) → o ≡ some a → Keeps P (f a))
      → Keeps P (or_throw o m >>= f)
  Keeps-or_throw none m f failing rest w p = elim (Result-cases (m w).0) [
    | inl (a, e) ↦ rw (◌>>=◌, or_throw, e) (rw (or_throw, e) (failing w p))
    | inr (x, e) ↦ rw (◌>>=◌, or_throw, e) (rw (or_throw, e) (failing w p))
  ]
  Keeps-or_throw (some a) m f failing rest w p = rest a refl w p

  pub Keeps-if {ℓ} :
      {A : Type ℓ} (b : Bool) (m n : Action E A)
      → Keeps P m
      → Keeps P n
      → Keeps P (if b then m else n)
  Keeps-if true m n p q = p
  Keeps-if false m n p q = q
