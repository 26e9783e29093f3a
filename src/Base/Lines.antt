-- ===== src/Base/Lines.antt =====
-- Splitting a text at a unit and joining parts with it, as `split` and `join` do.
use Prim.Native.Nat.{ℕ}
use mathlib.Core.Path.{◌∙◌, ◌≡◌, refl, ap}
use mathlib.Core.Bool.{Bool, false}
use mathlib.Core.List.{List, [], ◌∷◌, ◌++◌}
use native.Mathlib.Omega.{arith}
use docuai.Base.Any.{any_append}
use mathlib.Core.Logic.{inl, inr}
use docuai.Base.Tests.{==→eq, Bool-cases, ◌==◌, if◌then◌else◌, ==_refl}
use docuai.Base.Texts.{drop_end, Text}
use docuai.Base.Lists.{Nil-cases, All, any}

-- A unit in front of the first part.
abbrev pub onto_first : ℕ → List Text → List Text
onto_first c [] = (c ∷ []) ∷ []
onto_first c (t ∷ ts) = (c ∷ t) ∷ ts

-- `s.split(c)`
unfoldable pub split : ℕ → Text → List Text
split c [] = [] ∷ []
split c (d ∷ s) = let parts = split c s in if d == c then [] ∷ parts else onto_first d parts

-- `parts.join(c)`
unfoldable pub join : ℕ → List Text → Text
join c [] = []
join c (t ∷ []) = t
join c (t ∷ u ∷ ts) = t ++ c ∷ join c (u ∷ ts)

-- The unit does not occur.
abbrev pub Lacks : ℕ → Text → Type 0
Lacks c = All (λ d. (d == c) ≡ false)

split_parts : (c : ℕ) (s : Text) → (t : Text) × (ts : List Text) × (split c s ≡ t ∷ ts)
unfolding split
split_parts c [] = ([], [], refl)
split_parts c (d ∷ s) =
    let (t, ts, e) = split_parts c s in
    elim (Bool-cases (d == c)) [
      | inl h ↦ ([], t ∷ ts, rw (h, e) refl)
      | inr h ↦ (d ∷ t, ts, rw (h, e) refl)
    ]

join-onto_first :
    (c d : ℕ) (t : Text) (ts : List Text) → join c ((d ∷ t) ∷ ts) ≡ d ∷ join c (t ∷ ts)
unfolding join
join-onto_first c d t [] = refl
join-onto_first c d t (u ∷ ts) = refl

pub join-split : (c : ℕ) (s : Text) → join c (split c s) ≡ s
unfolding split join
join-split c [] = refl
join-split c (d ∷ s) =
    let (t, ts, e) = split_parts c s in
    let ih : join c (t ∷ ts) ≡ s = rw e at (join-split c s) in
    elim (Bool-cases (d == c)) [
      | inl h ↦ rw (h, e) (let k : d ≡ c = ==→eq d c h in rw (ih, k) refl)
      | inr h ↦ rw (h, e) (join-onto_first c d t ts ∙ ap (λ x. d ∷ x) ih)
    ]

split_part : (c : ℕ) (t : Text) → Lacks c t → split c t ≡ t ∷ []
unfolding split
split_part c [] h = refl
split_part c (d ∷ t) h = rw (h.0, split_part c t h.1) refl

pub split-append : (c : ℕ) (t s : Text) → Lacks c t → split c (t ++ c ∷ s) ≡ t ∷ split c s
unfolding split
split-append c [] s h = rw (==_refl c) refl
split-append c (d ∷ t) s h = rw (h.0, split-append c t s h.1) refl

-- Parts without the unit, at least one, are split as they were joined.
pub split-join :
    (c : ℕ) (t : Text) (ts : List Text)
    → All (Lacks c) (t ∷ ts)
    → split c (join c (t ∷ ts)) ≡ t ∷ ts
unfolding join
split-join c t [] h = split_part c t h.0
split-join c t (u ∷ ts) h =
    split-append c t (join c (u ∷ ts)) h.0 ∙ ap (λ x. t ∷ x) (split-join c u ts h.1)

-- What no unit of a text is, no unit of its parts is, and the other way round.
pub any-split :
    (p : ℕ → Bool) (c : ℕ) (s : Text) → any p s ≡ false → All (λ t. any p t ≡ false) (split c s)
unfolding split
any-split p c [] h = (refl, tt)
any-split p c (d ∷ s) h =
    let (t, ts, e) = split_parts c s in
    let here : p d ≡ false = ground arith in
    let ih : All (λ u. any p u ≡ false) (t ∷ ts) = rw e at (any-split p c s (ground arith)) in
    elim (Bool-cases (d == c)) [
      | inl k ↦ rw (k, e) (refl, ih)
      | inr k ↦ rw (k, e) (ground (arith, here, ih.0), ih.1)
    ]

pub any-join :
    (p : ℕ → Bool) (c : ℕ) (ts : List Text)
    → p c ≡ false
    → All (λ t. any p t ≡ false) ts
    → any p (join c ts) ≡ false
unfolding join
any-join p c [] k h = refl
any-join p c (t ∷ []) k h = h.0
any-join p c (t ∷ u ∷ ts) k h =
    any_append p t (c ∷ join c (u ∷ ts)) h.0 (rw (k, any-join p c (u ∷ ts) k h.1) refl)

pub Lacks-split : (c : ℕ) (s : Text) → All (Lacks c) (split c s)
unfolding split
Lacks-split c [] = (tt, tt)
Lacks-split c (d ∷ s) =
    let (t, ts, e) = split_parts c s in
    let ih : All (Lacks c) (t ∷ ts) = rw e at (Lacks-split c s) in
    elim (Bool-cases (d == c)) [ inl k ↦ rw (k, e) (tt, ih) | inr k ↦ rw (k, e) ((k, ih.0), ih.1) ]

pub Lacks-drop_end : (c : ℕ) (p : ℕ → Bool) (s : Text) → Lacks c s → Lacks c (drop_end p s)
unfolding drop_end
Lacks-drop_end c p [] h = tt
Lacks-drop_end c p (d ∷ s) h =
    let rest = Lacks-drop_end c p s (h.1) in
    elim (Nil-cases (drop_end p s)) [
      | inl e ↦ elim (Bool-cases (p d)) [ inl k ↦ rw (e, k) tt | inr k ↦ rw (e, k) (h.0, tt) ]
      | inr (x, t, e) ↦ rw e (h.0, rw e at rest)
    ]
