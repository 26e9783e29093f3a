-- ===== src/Ocr/PageText/Usable.antt =====
-- When the text layer of a page is used (isNativeTextUsable of backend/src/ocr/tools/text.ts).
use docuai.Base.{
  or_false, ◌↔◌, ==→eq, ◌∙◌, ap, ℕ, ◌+◌, ◌*◌, ◌<◌, ◌≤◌, ◌≡◌, refl, Bool, true, false, ◌&&◌, not, [],
  ◌∷◌, Text, arith, ◌==◌, any, drop_end, drop_while, trim, is_space, Bool-cases, Nil-cases, inl,
  inr, if◌then◌else◌, ltb, leb, any-trim,
}
use docuai.Ocr.PageText.{
  collapse_spaces, scan_chars, is_native_text_usable, utf16_length, NativeTextRule,
}

-- White space other than the plain space.
abbrev is_other_space : ℕ → Bool
is_other_space c = is_space c && not (c == 32)

-- A unit that is no white space and passes the test.
abbrev pub is_visible : (ℕ → Bool) → ℕ → Bool
is_visible p c = not (is_space c) && p c

-- How many units pass the test.
abbrev pub count : (ℕ → Bool) → Text → ℕ
count p [] = 0
count p (c ∷ s) = let rest = count p s in if p c then rest + 1 else rest

other_space_none : (c : ℕ) → is_space c ≡ false → is_other_space c ≡ false
other_space_none c e = rw e refl

any-collapse_spaces :
    (after : Bool) (s : Text) → any is_other_space (collapse_spaces after s) ≡ false
unfolding collapse_spaces
any-collapse_spaces after [] = refl
any-collapse_spaces after (c ∷ s) =
    let rest = any-collapse_spaces (is_space c) s in
    elim (Bool-cases (is_space c)) [
      | inl e ↦ elim (Bool-cases after) [
        | inl f ↦ rw (e, f) (rw e at rest)
        | inr f ↦ rw (e, f) (rw e at rest)
      ]
      | inr e ↦ rw (e, other_space_none c e) (rw e at rest)
    ]

module _ (p : ℕ → Bool) where
  count_cons :
      (c : ℕ) (s t : Text)
      → count (is_visible p) s ≡ count (is_visible p) t
      → count (is_visible p) (c ∷ s) ≡ count (is_visible p) (c ∷ t)
  count_cons c s t e = ap (λ n. if is_visible p c then n + 1 else n) e

  count-collapse_spaces :
      (after : Bool) (s : Text)
      → count (is_visible p) (collapse_spaces after s) ≡ count (is_visible p) s
  unfolding collapse_spaces
  count-collapse_spaces after [] = refl
  count-collapse_spaces after (c ∷ s) = elim (Bool-cases (is_space c)) [
    | inl e ↦ elim (Bool-cases after) [
      | inl f ↦ rw (e, f) (count-collapse_spaces true s)
      | inr f ↦ rw (e, f) (count-collapse_spaces true s)
    ]
    | inr e ↦
        let kept : collapse_spaces after (c ∷ s) ≡ c ∷ collapse_spaces false s = rw e refl in
        ap (count (is_visible p)) kept
        ∙ count_cons c (collapse_spaces false s) s (count-collapse_spaces false s)
  ]

  count-drop_while :
      (s : Text) → count (is_visible p) (drop_while is_space s) ≡ count (is_visible p) s
  unfolding drop_while
  count-drop_while [] = refl
  count-drop_while (c ∷ s) = elim (Bool-cases (is_space c)) [
    | inl e ↦ rw (e) (count-drop_while s)
    | inr e ↦
        let kept : drop_while is_space (c ∷ s) ≡ c ∷ s = rw e refl in ap (count (is_visible p)) kept
  ]

  count-drop_end : (s : Text) → count (is_visible p) (drop_end is_space s) ≡ count (is_visible p) s
  unfolding drop_end
  count-drop_end [] = refl
  count-drop_end (c ∷ s) =
      let whole = count_cons c (drop_end is_space s) s (count-drop_end s) in
      elim (Nil-cases (drop_end is_space s)) [
        | inl e ↦
            let alone : count (is_visible p) (c ∷ []) ≡ count (is_visible p) (c ∷ s) =
              rw e at whole in
            elim (Bool-cases (is_space c)) [
              | inl k ↦ rw (e, k) (rw k at alone)
              | inr k ↦
                  let kept : drop_end is_space (c ∷ s) ≡ c ∷ [] = rw (e, k) refl in
                  ap (count (is_visible p)) kept ∙ alone
            ]
        | inr (d, t, e) ↦ rw e (rw e at whole)
      ]

  count-shown :
      (text : Text)
      → count (is_visible p) (trim (collapse_spaces false text)) ≡ count (is_visible p) text
  unfolding trim
  count-shown text =
      count-drop_end (drop_while is_space (collapse_spaces false text))
      ∙ count-drop_while (collapse_spaces false text)
      ∙ count-collapse_spaces false text

same_test : (a b : Bool) → (b ≡ true → a ≡ true) → (a && not b) ≡ false → a ≡ b
same_test true true h k = refl
same_test true false h k = absurd (cc)
same_test false true h k = h refl
same_test false false h k = refl

-- Where the plain space is the only white space, both tests are one.
space_plain : (c : ℕ) → is_other_space c ≡ false → is_space c ≡ (c == 32)
space_plain c h =
    same_test (is_space c) (c == 32) (λ e. let k : c ≡ 32 = ==→eq c 32 e in rw k refl) h

count_hidden :
    (p : ℕ → Bool) (c : ℕ) (s : Text)
    → is_space c ≡ true
    → count (is_visible p) (c ∷ s) ≡ count (is_visible p) s
count_hidden p c s e = rw e refl

count_visible :
    (p : ℕ → Bool) (a c : ℕ) (s : Text)
    → is_space c ≡ false
    → a + count (is_visible p) (c ∷ s) ≡ (if p c then a + 1 else a) + count (is_visible p) s
count_visible p a c s e = elim (Bool-cases (p c)) [
  | inl f ↦ rw (e, f) (omega arith)
  | inr f ↦ rw (e, f) refl
]

-- The loop counts the visible units where the plain space is the only white space.
scan_chars-count :
    (p : ℕ → Bool) (a n : ℕ) (s : Text)
    → any is_other_space s ≡ false
    → ((scan_chars p a n s).0 ≡ a + count (is_visible p) s)
      × ((scan_chars p a n s).1 ≡ n + count (is_visible (λ c. true)) s)
unfolding scan_chars
scan_chars-count p a n [] h = omega arith
scan_chars-count p a n (c ∷ s) h =
    let (here, others) = or_false (is_other_space c) (any is_other_space s) h in
    let plain : is_space c ≡ (c == 32) = space_plain c here in
    elim (Bool-cases (c == 32)) [
      | inl e ↦
          let stepped : scan_chars p a n (c ∷ s) ≡ scan_chars p a n s = rw e refl in
          omega (
            arith,
            ap (λ r. r.0) stepped,
            ap (λ r. r.1) stepped,
            count_hidden p c s (plain ∙ e),
            count_hidden (λ c. true) c s (plain ∙ e),
            scan_chars-count p a n s others,
          )
      | inr e ↦
          let stepped : scan_chars p a n (c ∷ s)
              ≡ scan_chars p (if p c then a + 1 else a) (n + 1) s =
            rw e refl in
          omega (
            arith,
            ap (λ r. r.0) stepped,
            ap (λ r. r.1) stepped,
            count_visible p a c s (plain ∙ e),
            count_visible (λ c. true) n c s (plain ∙ e),
            scan_chars-count p (if p c then a + 1 else a) (n + 1) s others,
          )
    ]

usable_iff :
    (size least letters visible share : ℕ)
    → ((if ltb size least
          then false
          else if visible == 0
          then false
          else leb (share * visible) (1000 * letters))
        ≡ true)
      ↔ ((least ≤ size) × (0 < visible) × (share * visible ≤ 1000 * letters))
usable_iff size least letters visible share = (λ h. ground arith, λ h. ground arith)

-- The text layer of a page is used exactly when it is long enough, has a unit that is no white space,
-- and the least share of those units are letters or digits: collapsing and trimming change neither
-- number.
pub is_native_text_usable_iff :
    (is_alphanumeric : ℕ → Bool) (text : Text) (rule : NativeTextRule)
    → (is_native_text_usable is_alphanumeric text rule ≡ true) ↔ (
        (rule.min_chars ≤ utf16_length (trim (collapse_spaces false text)))
        × (0 < count (is_visible (λ c. true)) text)
        × (rule.min_alphanumeric_ratio * count (is_visible (λ c. true)) text
            ≤ 1000 * count (is_visible is_alphanumeric) text))
unfolding is_native_text_usable
is_native_text_usable_iff is_alphanumeric text rule =
    let shown = trim (collapse_spaces false text) in
    let plain : any is_other_space shown ≡ false =
      any-trim is_other_space (collapse_spaces false text) (any-collapse_spaces false text) in
    let (letters, visible) = scan_chars-count is_alphanumeric 0 0 shown plain in
    let x = count-shown is_alphanumeric text in
    let y = count-shown (λ c. true) text in
    let l : (scan_chars is_alphanumeric 0 0 shown).0 ≡ count (is_visible is_alphanumeric) text =
      omega (arith, letters, x) in
    let v : (scan_chars is_alphanumeric 0 0 shown).1 ≡ count (is_visible (λ c. true)) text =
      omega (arith, visible, y) in
    rw (l, v)
      (usable_iff (utf16_length shown) rule.min_chars (count (is_visible is_alphanumeric) text)
        (count (is_visible (λ c. true)) text) rule.min_alphanumeric_ratio)
