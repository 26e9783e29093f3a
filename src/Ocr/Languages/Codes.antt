-- ===== src/Ocr/Languages/Codes.antt =====
-- Lists of language codes (backend/src/ocr/ocr-languages.service.ts): codes have no white space and no
-- `+`, and a list without duplicates is its own list of unique codes.
use docuai.Base.{
  and_true, not, ==→eq, or_false, ℕ, ◌≡◌, refl, Bool, true, false, ◌&&◌, [], ◌∷◌, List, Text, arith,
  ◌==◌, any, same_text, includes_text, is_space, trim, drop_while, drop_end, Lacks, Bool-cases, inl,
  inr, is_empty, ap, ◌∙◌,
}
use docuai.Ocr.Languages.{is_lower, is_language_code, is_code_end, all_lower, without, unique}

module _ (p : ℕ → Bool) (letters : (c : ℕ) → is_lower c ≡ true → p c ≡ false) where
  any-all_lower : (s : Text) → all_lower s ≡ true → any p s ≡ false
  any-all_lower [] h = refl
  any-all_lower (c ∷ s) h = elim (Bool-cases (is_lower c)) [
    | inl e ↦ rw (letters c e) (any-all_lower s (rw e at h))
    | inr e ↦ absurd (let f : false ≡ true = rw e at h in cc)
  ]

  any-is_code_end : p b'_' ≡ false → (s : Text) → is_code_end s ≡ true → any p s ≡ false
  any-is_code_end u [] h = refl
  any-is_code_end u (c ∷ s) h =
      let (front, lower) = and_true (c == b'_' && not (is_empty s)) (all_lower s) h in
      let (first, some_left) = and_true (c == b'_') (not (is_empty s)) front in
      let same : c ≡ b'_' = ==→eq c b'_' first in rw (same, u) (any-all_lower s lower)

  -- What neither a letter nor the underscore is, no unit of a code is.
  pub any-is_language_code :
      p b'_' ≡ false → (s : Text) → is_language_code s ≡ true → any p s ≡ false
  unfolding is_language_code
  any-is_language_code u [] h = absurd (cc)
  any-is_language_code u (a ∷ []) h = absurd (cc)
  any-is_language_code u (a ∷ b ∷ []) h = absurd (cc)
  any-is_language_code u (a ∷ b ∷ c ∷ s) h =
      ground (arith, letters a, letters b, letters c, any-is_code_end u s)

any-Lacks : (k : ℕ) (s : Text) → any (λ c. c == k) s ≡ false → Lacks k s
any-Lacks k [] h = tt
any-Lacks k (c ∷ s) h = (ground arith, any-Lacks k s (ground arith))

pub is_language_code-Lacks : (s : Text) → is_language_code s ≡ true → Lacks b'+' s
is_language_code-Lacks s h =
    any-Lacks b'+' s (any-is_language_code (λ c. c == b'+') (λ c e. ground arith) refl s h)

lower-space : (c : ℕ) → is_lower c ≡ true → is_space c ≡ false
lower-space c e = ground arith

pub is_language_code-space : (s : Text) → is_language_code s ≡ true → any is_space s ≡ false
is_language_code-space s h = any-is_language_code is_space (λ c e. lower-space c e) refl s h

drop_while_plain : (s : Text) → any is_space s ≡ false → drop_while is_space s ≡ s
unfolding drop_while
drop_while_plain [] h = refl
drop_while_plain (c ∷ s) h = rw ((or_false (is_space c) (any is_space s) h).0) refl

drop_end_plain : (s : Text) → any is_space s ≡ false → drop_end is_space s ≡ s
unfolding drop_end
drop_end_plain [] h = refl
drop_end_plain (c ∷ []) h = rw ((or_false (is_space c) false h).0) refl
drop_end_plain (c ∷ d ∷ s) h =
    let rest = drop_end_plain (d ∷ s) ((or_false (is_space c) (any is_space (d ∷ s)) h).1) in
    rw (drop_end, rest) refl

-- A text without white space is not changed by trimming.
pub trim_plain : (s : Text) → any is_space s ≡ false → trim s ≡ s
unfolding trim
trim_plain s h = ap (drop_end is_space) (drop_while_plain s h) ∙ drop_end_plain s h

abbrev pub Distinct : List Text → Type 0
Distinct [] = Unit
Distinct (t ∷ ts) = (includes_text ts t ≡ false) × Distinct ts

includes_text-without_self : (t : Text) (us : List Text) → includes_text (without t us) t ≡ false
includes_text-without_self t [] = refl
includes_text-without_self t (u ∷ us) = elim (Bool-cases (same_text t u)) [
  | inl e ↦ rw e (includes_text-without_self t us)
  | inr e ↦ rw (e, e) (includes_text-without_self t us)
]

includes_text-without :
    (t s : Text) (us : List Text)
    → includes_text us s ≡ false
    → includes_text (without t us) s ≡ false
includes_text-without t s [] h = refl
includes_text-without t s (u ∷ us) h =
    let (here, others) = or_false (same_text s u) (includes_text us s) h in
    elim (Bool-cases (same_text t u)) [
      | inl e ↦ rw e (includes_text-without t s us others)
      | inr e ↦ rw (e, here) (includes_text-without t s us others)
    ]

without-Distinct : (t : Text) (us : List Text) → Distinct us → Distinct (without t us)
without-Distinct t [] h = tt
without-Distinct t (u ∷ us) h = elim (Bool-cases (same_text t u)) [
  | inl e ↦ rw e (without-Distinct t us h.1)
  | inr e ↦ rw e (includes_text-without t u us h.0, without-Distinct t us h.1)
]

pub unique-Distinct : (ts : List Text) → Distinct (unique ts)
unfolding unique
unique-Distinct [] = tt
unique-Distinct (t ∷ ts) =
    (includes_text-without_self t (unique ts), without-Distinct t (unique ts) (unique-Distinct ts))

without_absent : (t : Text) (us : List Text) → includes_text us t ≡ false → without t us ≡ us
without_absent t [] h = refl
without_absent t (u ∷ us) h =
    let (here, others) = or_false (same_text t u) (includes_text us t) h in
    rw here (ap (λ x. u ∷ x) (without_absent t us others))

-- A list without duplicates is left as it is.
pub Distinct-unique : (ts : List Text) → Distinct ts → unique ts ≡ ts
unfolding unique
Distinct-unique [] h = refl
Distinct-unique (t ∷ ts) h =
    ap (λ x. t ∷ x) (ap (without t) (Distinct-unique ts h.1) ∙ without_absent t ts h.0)
