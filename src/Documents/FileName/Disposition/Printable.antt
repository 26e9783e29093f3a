-- ===== src/Documents/FileName/Disposition/Printable.antt =====
-- What attachmentContentDisposition (backend/src/documents/file-name.ts) promises of the header.
use docuai.Base.{
  Option-cases, true, inl, inr, Bool-cases, ℕ, ◌+◌, ◌/◌, ◌%◌, ◌≡◌, refl, Bool, false, not, ◌||◌,
  Option, none, some, [], ◌∷◌, ◌++◌, Text, any, map, arith, ltb, ◌==◌,
}
use docuai.Documents.FileName.Disposition.{
  is_printable, to_ascii, is_unescaped, percent, escaped, is_high, is_low, code_point, encode_unit,
  encode_from, encode_uri_component, escape_marks, prefix, middle, attachment_content_disposition,
}

abbrev pub is_unprintable : ℕ → Bool
is_unprintable c = not (is_printable c)

any_append_printable :
    (s t : Text)
    → any is_unprintable s ≡ false
    → any is_unprintable t ≡ false
    → any is_unprintable (s ++ t) ≡ false
any_append_printable [] t a b = b
any_append_printable (c ∷ s) t a b = ground (arith, any_append_printable s t)

percent_printable : (b : ℕ) → any is_unprintable (percent b) ≡ false
percent_printable b = ground arith

map-to_ascii_printable : (s : Text) → any is_unprintable (map to_ascii s) ≡ false
map-to_ascii_printable [] = refl
map-to_ascii_printable (c ∷ s) = ground (arith, map-to_ascii_printable s)

abbrev Printable : Text → Type 0
Printable s = any is_unprintable s ≡ false

escaped-Printable : (c : ℕ) → Printable (escaped c)
unfolding escaped
escaped-Printable c =
    let two = λ (a b : ℕ).
      any_append_printable (percent a) (percent b) (percent_printable a) (percent_printable b) in
    let three = λ (x a b : ℕ).
      any_append_printable (percent x) (percent a ++ percent b) (percent_printable x) (two a b) in
    let four = λ (y x a b : ℕ).
      any_append_printable (percent y) (percent x ++ (percent a ++ percent b)) (percent_printable y)
        (three x a b) in
    elim (Bool-cases (ltb c 0x80)) [
      | inl e ↦ rw (escaped, e) (percent_printable c)
      | inr e ↦ elim (Bool-cases (ltb c 0x800)) [
        | inl f ↦ rw (escaped, e, f) (two (0xc0 + c / 64) (0x80 + c % 64))
        | inr f ↦ elim (Bool-cases (ltb c 0x10000)) [
          | inl g ↦
              rw (escaped, e, f, g) (three (0xe0 + c / 4096) (0x80 + c / 64 % 64) (0x80 + c % 64))
          | inr g ↦
              rw (escaped, e, f, g)
                (four (0xf0 + c / 262144) (0x80 + c / 4096 % 64) (0x80 + c / 64 % 64)
                  (0x80 + c % 64))
        ]
      ]
    ]

unescaped-Printable : (c : ℕ) → is_unescaped c ≡ true → Printable (c ∷ [])
unfolding is_unescaped
unescaped-Printable c e = ground arith

-- What a unit adds is printable, where it is no error.
abbrev StepPrintable : Option (Text × Option ℕ) → Type 0
StepPrintable none = Unit
StepPrintable (some (out, _)) = Printable out

abbrev TextPrintable : Option Text → Type 0
TextPrintable none = Unit
TextPrintable (some t) = Printable t

encode_unit_printable : (pending : Option ℕ) (c : ℕ) → StepPrintable (encode_unit pending c)
unfolding encode_unit
encode_unit_printable none c = elim (Bool-cases (is_unescaped c)) [
  | inl t ↦ rw (StepPrintable, t) (unescaped-Printable c t)
  | inr t ↦ elim (Bool-cases (is_high c)) [
    | inl h ↦ rw (StepPrintable, t, h) refl
    | inr h ↦ elim (Bool-cases (is_low c)) [
      | inl l ↦ rw (StepPrintable, t, h, l) tt
      | inr l ↦ rw (StepPrintable, t, h, l) (escaped-Printable c)
    ]
  ]
]
encode_unit_printable (some high) c = elim (Bool-cases (is_low c)) [
  | inl l ↦ rw (StepPrintable, l) (escaped-Printable (code_point high c))
  | inr l ↦ rw (StepPrintable, l) tt
]

encode_from_printable : (pending : Option ℕ) (s : Text) → TextPrintable (encode_from pending s)
unfolding encode_from
encode_from_printable none [] = refl
encode_from_printable (some high) [] = tt
encode_from_printable pending (c ∷ s) =
    let unit = encode_unit_printable pending c in
    elim (Option-cases (encode_unit pending c)) [
      | inl e ↦ rw (encode_from, e) tt
      | inr ((out, rest), e) ↦
          let tail = encode_from_printable rest s in
          elim (Option-cases (encode_from rest s)) [
            | inl f ↦ rw (encode_from, e, f) tt
            | inr (t, f) ↦
                rw (encode_from, e, f) (any_append_printable out t (rw e at unit) (rw f at tail))
          ]
    ]

escape_marks-Printable : (s : Text) → Printable s → Printable (escape_marks s)
unfolding escape_marks
escape_marks-Printable [] h = refl
escape_marks-Printable (c ∷ s) h =
    let rest = escape_marks-Printable s (ground arith) in
    elim (Bool-cases (c == 0x27 || c == b'(' || c == b')' || c == b'*')) [
      | inl t ↦
          rw (escape_marks, t)
            (any_append_printable (percent c) (escape_marks s) (percent_printable c) rest)
      | inr t ↦
          rw (escape_marks, t) (any_append_printable (c ∷ []) (escape_marks s) (ground arith) rest)
    ]

-- A quote or a backslash, which would end or escape the quoted name.
abbrev pub is_quoting : ℕ → Bool
is_quoting c = c == b'"' || c == 0x5c

map-to_ascii_unquoted : (s : Text) → any is_quoting (map to_ascii s) ≡ false
map-to_ascii_unquoted [] = refl
map-to_ascii_unquoted (c ∷ s) = ground (arith, map-to_ascii_unquoted s)

-- What a header has to be: printable, and with a fallback between its quotes that has none itself;
-- there is none only for a name that cannot be encoded.
abbrev pub IsHeaderOf : Text → Option Text → Type 0
IsHeaderOf name none = encode_uri_component name ≡ none
IsHeaderOf name (some header) =
    (any is_unprintable header ≡ false)
    × ((fallback : Text) × ((rest : Text) × ((header ≡ prefix ++ (fallback ++ (middle ++ rest)))
            × (any is_quoting fallback ≡ false))))

-- The header of a download is printable ASCII whatever the name is, so that no name can break the
-- header off, and the name between its quotes has no quote and no backslash. Only a name that cannot
-- be encoded has no header.
pub attachment_content_disposition_lem :
    (name : Text) → IsHeaderOf name (attachment_content_disposition name)
unfolding attachment_content_disposition encode_uri_component
attachment_content_disposition_lem name =
    let printable = encode_from_printable none name in
    elim (Option-cases (encode_from none name)) [
      | inl e ↦ rw (IsHeaderOf, e) e
      | inr (t, e) ↦
          let tail = escape_marks-Printable t (rw e at printable) in
          let fallback = map to_ascii name in
          rw (IsHeaderOf, e)
            (
              any_append_printable prefix (fallback ++ (middle ++ escape_marks t)) refl (
                  any_append_printable fallback (middle ++ escape_marks t)
                    (map-to_ascii_printable name)
                    (any_append_printable middle (escape_marks t) refl tail)),
              (fallback, (escape_marks t, (refl, map-to_ascii_unquoted name))),
            )
    ]
