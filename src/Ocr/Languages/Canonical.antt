-- ===== src/Ocr/Languages/Canonical.antt =====
-- The language list that a request resolves to (backend/src/ocr/ocr-languages.service.ts).
use docuai.Base.{
  if◌then◌else◌, ltb, ◌≡◌, ◌≤◌, refl, Bool, true, false, ◌||◌, not, Option, some, [], ◌∷◌, List,
  Text, arith, ◌==◌, any, All, includes_text, is_empty, length, map, ok, err, Bool-cases, inl, inr,
  split, join, split-join, Lacks, trim, or_false, ap, ◌∙◌, subst, sym, any-join, is_space,
}
use docuai.Ocr.Languages.{
  LanguagesConfig, is_language_code, unique, codes_of, raw_of, is_refused, resolve,
}
use docuai.Ocr.Languages.Codes.{
  is_language_code-Lacks, is_language_code-space, trim_plain, Distinct, unique-Distinct,
  Distinct-unique,
}

-- A code of the right form that is offered.
abbrev pub IsOffered : (available : List Text) → Text → Type 0
IsOffered available t = (is_language_code t ≡ true) × (includes_text available t ≡ true)

-- One code at least and no more than allowed, each of them offered, none of them twice.
abbrev pub IsCanonical : LanguagesConfig → (available codes : List Text) → Type 0
IsCanonical config available codes =
    (1 ≤ length codes)
    × (length codes ≤ config.max_languages_per_job)
    × All (IsOffered available) codes
    × Distinct codes

true_of_negated : (b : Bool) → not b ≡ false → b ≡ true
true_of_negated true h = refl
true_of_negated false h = absurd (cc)

offered :
    (available codes : List Text)
    → any (λ code. not (is_language_code code) || not (includes_text available code)) codes ≡ false
    → All (IsOffered available) codes
offered available [] h = tt
offered available (t ∷ ts) h =
    let (here, others) =
      or_false (not (is_language_code t) || not (includes_text available t)) _ h in
    let (form, there) =
      or_false (not (is_language_code t)) (not (includes_text available t)) here in
    (
      (
        true_of_negated (is_language_code t) form,
        true_of_negated (includes_text available t) there,
      ),
      offered available ts others,
    )

trimmed : (available codes : List Text) → All (IsOffered available) codes → map trim codes ≡ codes
trimmed available [] h = refl
trimmed available (t ∷ ts) h =
    let same = trim_plain t (is_language_code-space t h.0.0) in
    let others = trimmed available ts h.1 in rw (same, others) refl

lacking : (available codes : List Text) → All (IsOffered available) codes → All (Lacks b'+') codes
lacking available [] h = tt
lacking available (t ∷ ts) h = (is_language_code-Lacks t h.0.0, lacking available ts h.1)

spaceless :
    (available codes : List Text)
    → All (IsOffered available) codes
    → All (λ t. any is_space t ≡ false) codes
spaceless available [] h = tt
spaceless available (t ∷ ts) h = (is_language_code-space t h.0.0, spaceless available ts h.1)

join-nonempty :
    (t : Text) (ts : List Text) → is_language_code t ≡ true → is_empty (join b'+' (t ∷ ts)) ≡ false
unfolding join is_language_code
join-nonempty [] ts h = absurd (cc)
join-nonempty (c ∷ t) [] h = refl
join-nonempty (c ∷ t) (u ∷ ts) h = refl

module _ (config : LanguagesConfig) (available : List Text) where
  accepted :
      (codes : List Text)
      → Distinct codes
      → is_refused config available codes ≡ false
      → IsCanonical config available codes
  unfolding is_refused
  accepted codes d h =
      let (sized, each) =
        or_false (length codes == 0 || ltb config.max_languages_per_job (length codes)) _ h in
      (ground (arith, sized), ground (arith, sized), offered available codes each, d)

  raw_of_plain : (s : Text) → trim s ≡ s → is_empty s ≡ false → raw_of config (some s) ≡ s
  unfolding raw_of
  raw_of_plain s plain filled =
      ap (λ x. if is_empty x then config.default_language else x) plain ∙ rw filled refl

  -- Reading a joined list gives the codes back.
  codes_of-join :
      (t : Text) (ts : List Text)
      → All (IsOffered available) (t ∷ ts)
      → Distinct (t ∷ ts)
      → codes_of config (raw_of config (some (join b'+' (t ∷ ts)))) ≡ t ∷ ts
  unfolding codes_of raw_of
  codes_of-join t ts h d =
      let s = join b'+' (t ∷ ts) in
      let plain : trim s ≡ s =
        trim_plain s (any-join is_space b'+' (t ∷ ts) refl (spaceless available (t ∷ ts) h)) in
      let parts : split b'+' s ≡ t ∷ ts = split-join b'+' t ts (lacking available (t ∷ ts) h) in
      let kept : raw_of config (some s) ≡ s = raw_of_plain s plain (join-nonempty t ts h.0.0) in
      ap (codes_of config) kept
      ∙ ap (λ x. unique (map trim x)) parts
      ∙ ap unique (trimmed available (t ∷ ts) h)
      ∙ Distinct-unique (t ∷ ts) d

  resolved :
      (requested : Option Text) (s : Text)
      → resolve config available requested ≡ ok s
      → (is_empty available ≡ false)
        × (is_refused config available (codes_of config (raw_of config requested)) ≡ false)
        × (join b'+' (codes_of config (raw_of config requested)) ≡ s)
  unfolding resolve
  resolved requested s e = elim (Bool-cases (is_empty available)) [
    | inl f ↦ absurd (let g : err _ ≡ ok s = rw (resolve, f) at e in cc)
    | inr f ↦
        elim (Bool-cases
          (is_refused config available (codes_of config (raw_of config requested)))) [
            | inl k ↦ absurd (let g : err _ ≡ ok s = rw (resolve, f, k) at e in cc)
            | inr k ↦
                let g : ok (join b'+' (codes_of config (raw_of config requested))) ≡ ok s =
                  rw (resolve, f, k) at e in
                (f, k, cc)
          ]
  ]

  resolve_accepted :
      (requested : Option Text) (codes : List Text)
      → codes_of config (raw_of config requested) ≡ codes
      → is_empty available ≡ false
      → is_refused config available codes ≡ false
      → resolve config available requested ≡ ok (join b'+' codes)
  unfolding resolve
  resolve_accepted requested codes same some_left accepts =
      rw (resolve, same, some_left, accepts) refl

  again :
      (codes : List Text) (s : Text)
      → IsCanonical config available codes
      → is_empty available ≡ false
      → is_refused config available codes ≡ false
      → join b'+' codes ≡ s
      → IsCanonical config available (split b'+' s) × (resolve config available (some s) ≡ ok s)
  again [] s c some_left accepts e = absurd (omega (arith, c.0))
  again (t ∷ ts) s c some_left accepts e =
      let parts : split b'+' (join b'+' (t ∷ ts)) ≡ t ∷ ts =
        split-join b'+' t ts (lacking available (t ∷ ts) c.2) in
      subst
        (λ x.
          IsCanonical config available (split b'+' x) × (resolve config available (some x) ≡ ok x))
        e
        (
          subst (IsCanonical config available) (sym parts) c,
          resolve_accepted (some (join b'+' (t ∷ ts))) (t ∷ ts) (codes_of-join t ts c.2 c.3)
              some_left accepts,
        )

  -- The language list that a request resolves to names codes that are offered, one at least, no more
  -- than allowed and none twice, and it resolves to itself, so that a retry with it is accepted.
  pub resolve-resolve :
      (requested : Option Text) (s : Text)
      → resolve config available requested ≡ ok s
      → IsCanonical config available (split b'+' s) × (resolve config available (some s) ≡ ok s)
  unfolding codes_of
  resolve-resolve requested s e =
      let (some_left, accepts, joined) = resolved requested s e in
      again (codes_of config (raw_of config requested)) s
        (accepted (codes_of config (raw_of config requested))
          (unique-Distinct (map trim (split b'+' (raw_of config requested)))) accepts)
        some_left accepts joined
