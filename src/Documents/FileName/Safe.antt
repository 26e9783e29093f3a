-- ===== src/Documents/FileName/Safe.antt =====
-- What sanitizeFileName (backend/src/documents/file-name.ts) promises of the names that it returns.
use docuai.Base.{
  any-trim, any-take, any-remove_units_self, any_append, any-drop_end, any-remove_units,
  length-take, ◌+◌, zero, suc, inl, inr, ◌≤◌, ◌++◌, ◌-◌, some, none, Option-cases, length, is_empty,
  trim, ℕ, ◌≡◌, refl, Bool, false, ◌||◌, [], ◌∷◌, Text, arith, any, map, take, drop_end, after_last,
  remove_units, ◌==◌,
}
use docuai.Documents.FileName.{
  file_name_max_length, sanitize_file_name, extension_of, cleaned, suffix_of, is_dot_or_blank,
  last_segment, is_control, is_reserved, to_slash,
}

-- A unit that no file name of the service may have: a control or reserved character, or one of the
-- two separators of paths.
abbrev pub is_forbidden : ℕ → Bool
is_forbidden c = is_control c || is_reserved c || c == b'/' || c == 0x5c

any-to_slash : (s : Text) → any (λ c. c == 0x5c) (map to_slash s) ≡ false
any-to_slash [] = refl
any-to_slash (c ∷ s) = ground (arith, any-to_slash s)

-- What follows the last occurrence of a unit has none of it.
after_last_self : (k : ℕ) (s : Text) → after_last k s ≡ none → any (λ c. c == k) s ≡ false
unfolding after_last
after_last_self k [] e = refl
after_last_self k (c ∷ s) e = ground (arith, after_last_self k s)

any-after_last_self : (k : ℕ) (s t : Text) → after_last k s ≡ some t → any (λ c. c == k) t ≡ false
unfolding after_last
any-after_last_self k [] t e = absurd (cc)
any-after_last_self k (c ∷ s) t e = ground (arith, any-after_last_self k s t, after_last_self k s)

any-after_last :
    (p : ℕ → Bool) (k : ℕ) (s t : Text)
    → any p s ≡ false
    → after_last k s ≡ some t
    → any p t ≡ false
unfolding after_last
any-after_last p k [] t h e = absurd (cc)
any-after_last p k (c ∷ s) t h e = ground (arith, any-after_last p k s t)

any-is_forbidden :
    (s : Text)
    → any is_control s ≡ false
    → any is_reserved s ≡ false
    → any (λ c. c == b'/') s ≡ false
    → any (λ c. c == 0x5c) s ≡ false
    → any is_forbidden s ≡ false
any-is_forbidden [] a b c d = refl
any-is_forbidden (x ∷ s) a b c d = ground (arith, any-is_forbidden s)

-- The last two steps of the cleaning only drop units.
any-drop_ends :
    (p : ℕ → Bool) (s : Text) → any p s ≡ false → any p (drop_end is_dot_or_blank (trim s)) ≡ false
any-drop_ends p s h = any-drop_end p is_dot_or_blank (trim s) (any-trim p s h)

any-last_segment : (p : ℕ → Bool) (s : Text) → any p s ≡ false → any p (last_segment s) ≡ false
unfolding last_segment
any-last_segment p s h = elim (Option-cases (after_last b'/' s)) [
  | inl e ↦ rw (last_segment, e) h
  | inr (t, e) ↦ rw (last_segment, e) (any-after_last p b'/' s t h e)
]

any-last_segment_self : (s : Text) → any (λ c. c == b'/') (last_segment s) ≡ false
unfolding last_segment
any-last_segment_self s = elim (Option-cases (after_last b'/' s)) [
  | inl e ↦ rw (last_segment, e) (after_last_self b'/' s e)
  | inr (t, e) ↦ rw (last_segment, e) (any-after_last_self b'/' s t e)
]

length_append : (s t : Text) → length (s ++ t) ≡ length s + length t
length_append [] t = omega arith
length_append (c ∷ s) t = omega (arith, length_append s t)

is_empty-take : (k : ℕ) (s t : Text) → 1 ≤ k → is_empty s ≡ false → is_empty (take k s ++ t) ≡ false
is_empty-take zero s t h e = absurd (omega arith)
is_empty-take (suc k) [] t h e = absurd (cc)
is_empty-take (suc k) (c ∷ s) t h e = refl

-- The cut name keeps the suffix within the length.
cut-length :
    (raw suffix : Text)
    → length suffix ≤ 17
    → is_empty raw ≡ false
    → (length (take (file_name_max_length - length suffix) raw ++ suffix) ≤ file_name_max_length)
      × (is_empty (take (file_name_max_length - length suffix) raw ++ suffix) ≡ false)
cut-length raw suffix short e =
    let n = file_name_max_length - length suffix in
    (
      omega (arith, length_append (take n raw) suffix, length-take n raw),
      is_empty-take n raw suffix (omega arith) e,
    )

module _ (nfc lower : Text → Text) where
  any-cleaned : (input : Text) → any is_forbidden (cleaned nfc lower input) ≡ false
  unfolding cleaned
  any-cleaned input =
      let segment = last_segment (map to_slash (nfc input)) in
      let printable = remove_units is_control segment in
      let allowed = remove_units is_reserved printable in
      let keep = λ (p : ℕ → Bool) (h : any p segment ≡ false).
        any-remove_units p is_reserved printable (any-remove_units p is_control segment h) in
      any-is_forbidden (drop_end is_dot_or_blank (trim allowed))
        (any-drop_ends is_control allowed (
          any-remove_units is_control is_reserved printable
            (any-remove_units_self is_control segment)))
        (any-drop_ends is_reserved allowed (any-remove_units_self is_reserved printable))
        (any-drop_ends (λ c. c == b'/') allowed
          (keep (λ c. c == b'/') (any-last_segment_self (map to_slash (nfc input)))))
        (any-drop_ends (λ c. c == 0x5c) allowed
          (keep (λ c. c == 0x5c)
            (any-last_segment (λ c. c == 0x5c) (map to_slash (nfc input))
              (any-to_slash (nfc input)))))

  -- Lower case turns no unit into a forbidden one.
  abbrev pub LowersSafely : Type 0
  LowersSafely = (s : Text) → any is_forbidden s ≡ false → any is_forbidden (lower s) ≡ false

  any-suffix_of :
      LowersSafely
      → (name : Text) → any is_forbidden name ≡ false
      → any is_forbidden (suffix_of nfc lower name) ≡ false
  unfolding suffix_of extension_of
  any-suffix_of safe name h = elim (Option-cases (after_last b'.' name)) [
    | inl e ↦ rw (suffix_of, extension_of, e) refl
    | inr (t, e) ↦ let ok = safe t (any-after_last is_forbidden b'.' name t h e) in ground arith
  ]

  length-suffix_of : (name : Text) → length (suffix_of nfc lower name) ≤ 17
  unfolding suffix_of
  length-suffix_of name = ground arith

  sanitize_file_name-any :
      LowersSafely
      → (input name : Text) → sanitize_file_name nfc lower input ≡ some name
      → any is_forbidden name ≡ false
  unfolding sanitize_file_name
  sanitize_file_name-any safe input name e =
      let raw = cleaned nfc lower input in
      let suffix = suffix_of nfc lower raw in
      let clean = any-cleaned input in
      let cut =
        any_append is_forbidden (take (file_name_max_length - length suffix) raw) suffix
          (any-take is_forbidden (file_name_max_length - length suffix) raw clean)
          (any-suffix_of safe raw clean) in
      ground arith

  sanitize_file_name-length :
      (input name : Text)
      → sanitize_file_name nfc lower input ≡ some name
      → (length name ≤ file_name_max_length) × (is_empty name ≡ false)
  unfolding sanitize_file_name
  sanitize_file_name-length input name e =
      let raw = cleaned nfc lower input in
      let suffix = suffix_of nfc lower raw in
      let short = length-suffix_of raw in
      let cut = cut-length raw suffix short in (ground arith, ground arith)

  -- A name that is accepted has at least one unit and at most 255, and none that is a control
  -- character, a reserved character or a separator of paths, whatever text was given; provided that
  -- lower case makes no such unit of the units of an extension.
  pub sanitize_file_name_lem :
      LowersSafely
      → (input name : Text) → sanitize_file_name nfc lower input ≡ some name
      → (is_empty name ≡ false)
        × (length name ≤ file_name_max_length)
        × (any is_forbidden name ≡ false)
  sanitize_file_name_lem safe input name e =
      let (short, given) = sanitize_file_name-length input name e in
      (given, short, sanitize_file_name-any safe input name e)
