-- ===== src/Documents/FileName/Disposition.antt =====
-- attachmentContentDisposition (backend/src/documents/file-name.ts), with the part of
-- `encodeURIComponent` that it uses: a text of UTF-16 units becomes percent-encoded UTF-8, and a lone
-- surrogate is an error.
pub mod Printable
use docuai.Base.{
  Option-cases, true, inl, inr, Bool-cases, ℕ, ◌+◌, ◌-◌, ◌*◌, ◌/◌, ◌%◌, ◌≡◌, refl, Bool, false, not,
  ◌&&◌, ◌||◌, Option, none, some, [], ◌∷◌, ◌++◌, Text, any, map, arith, ltb, leb, ◌==◌,
  if◌then◌else◌,
}

abbrev pub is_printable : ℕ → Bool
is_printable c = leb 0x20 c && leb c 0x7e

-- `.replace(/[^\u0020-\u007E]/g, '_').replace(/["\\]/g, '_')`
abbrev to_ascii : ℕ → ℕ
to_ascii c = if not (is_printable c) || c == b'"' || c == 0x5c then b'_' else c

-- What `encodeURIComponent` leaves as it is.
is_unescaped : ℕ → Bool
is_unescaped c =
    (leb b'A' c && leb c b'Z')
    || (leb b'a' c && leb c b'z')
    || (leb b'0' c && leb c b'9')
    || c == b'-'
    || c == b'_'
    || c == b'.'
    || c == b'!'
    || c == b'~'
    || c == b'*'
    || c == 0x27
    || c == b'('
    || c == b')'

abbrev hex_digit : ℕ → ℕ
hex_digit n = if ltb n 10 then b'0' + n else b'A' + (n - 10)

-- The escape of a byte.
abbrev percent : ℕ → Text
percent b = b'%' ∷ hex_digit (b / 16 % 16) ∷ hex_digit (b % 16) ∷ []

-- The bytes of a code point in UTF-8, each escaped.
escaped : ℕ → Text
escaped c =
    if ltb c 0x80
    then percent c
    else if ltb c 0x800
    then percent (0xc0 + c / 64) ++ percent (0x80 + c % 64)
    else if ltb c 0x10000
    then percent (0xe0 + c / 4096) ++ (percent (0x80 + c / 64 % 64) ++ percent (0x80 + c % 64))
    else percent (0xf0 + c / 262144)
      ++ (percent (0x80 + c / 4096 % 64)
          ++ (percent (0x80 + c / 64 % 64) ++ percent (0x80 + c % 64)))

is_high : ℕ → Bool
is_high c = leb 0xd800 c && leb c 0xdbff

is_low : ℕ → Bool
is_low c = leb 0xdc00 c && leb c 0xdfff

-- The code point of a pair of surrogates.
code_point : ℕ → ℕ → ℕ
code_point high low = 0x10000 + (high - 0xd800) * 1024 + (low - 0xdc00)

-- One unit, after a high surrogate or not: what it adds, and the high surrogate that it leaves open.
encode_unit : Option ℕ → ℕ → Option (Text × Option ℕ)
encode_unit none c =
    if is_unescaped c
    then some (c ∷ [], none)
    else if is_high c
    then some ([], some c)
    else if is_low c
    then none
    else some (escaped c, none)
encode_unit (some high) c = if is_low c then some (escaped (code_point high c), none) else none

encode_from : Option ℕ → Text → Option Text
encode_from none [] = some []
encode_from (some high) [] = none
encode_from pending (c ∷ s) = elim (encode_unit pending c) [
  | none ↦ none
  | some (out, rest) ↦ elim (encode_from rest s) [ none ↦ none | some t ↦ some (out ++ t) ]
]

pub encode_uri_component : Text → Option Text
encode_uri_component s = encode_from none s

-- `.replace(/['()*]/g, (c) => …)`
escape_marks : Text → Text
escape_marks [] = []
escape_marks (c ∷ s) =
    (if c == 0x27 || c == b'(' || c == b')' || c == b'*' then percent c else c ∷ [])
    ++ escape_marks s

abbrev pub prefix : Text
prefix =
    b'a' ∷ b't' ∷ b't' ∷ b'a' ∷ b'c' ∷ b'h' ∷ b'm' ∷ b'e' ∷ b'n' ∷ b't' ∷ b';' ∷ b' ' ∷ b'f' ∷ b'i'
    ∷ b'l' ∷ b'e' ∷ b'n' ∷ b'a' ∷ b'm' ∷ b'e' ∷ b'=' ∷ b'"' ∷ []

abbrev pub middle : Text
middle =
    b'"' ∷ b';' ∷ b' ' ∷ b'f' ∷ b'i' ∷ b'l' ∷ b'e' ∷ b'n' ∷ b'a' ∷ b'm' ∷ b'e' ∷ b'*' ∷ b'=' ∷ b'U'
    ∷ b'T' ∷ b'F' ∷ b'-' ∷ b'8' ∷ 0x27 ∷ 0x27 ∷ []

-- `none` is the error of `encodeURIComponent`.
pub attachment_content_disposition : Text → Option Text
unfolding encode_uri_component
attachment_content_disposition name = elim (encode_uri_component name) [
  | none ↦ none
  | some encoded ↦ some (prefix ++ (map to_ascii name ++ (middle ++ escape_marks encoded)))
]
