-- ===== src/Documents/FileName.antt =====
-- backend/src/documents/file-name.ts: untrusted file names and MIME types. `nfc` is
-- `normalize('NFC')` and `lower` is `toLowerCase()`, which go by the tables of Unicode.
pub mod Safe
pub mod Disposition
mod Tests
use docuai.Base.{
  ℕ, ◌-◌, Bool, true, not, ◌&&◌, ◌||◌, Option, none, some, [], ◌∷◌, ◌++◌, Text, same_text, trim,
  before, after_last, remove_units, drop_end, leb, ltb, ◌==◌, if◌then◌else◌, length, take, map,
  is_empty, is_some,
}

abbrev pub file_name_max_length : ℕ
file_name_max_length = 255

-- CONTROL_CHARACTERS
abbrev pub is_control : ℕ → Bool
is_control c = leb c 0x1f || (leb 0x7f c && leb c 0x9f)

-- RESERVED_CHARACTERS
abbrev pub is_reserved : ℕ → Bool
is_reserved c =
    c == b'<' || c == b'>' || c == b':' || c == b'"' || c == b'|' || c == b'?' || c == b'*'

abbrev to_slash : ℕ → ℕ
to_slash c = if c == 0x5c then b'/' else c

abbrev is_dot_or_blank : ℕ → Bool
is_dot_or_blank c = c == b'.' || c == b' '

abbrev dot : Text
dot = b'.' ∷ []

abbrev dots : Text
dots = b'.' ∷ b'.' ∷ []

-- `slice(lastIndexOf(c) + 1)`, or the whole text.
last_segment : Text → Text
last_segment s = elim (after_last b'/' s) [ none ↦ s | some t ↦ t ]

-- `slice(0, lastIndexOf('.'))` is empty when the only dot is the first unit.
dot_at_start : Text → Bool
dot_at_start [] = true
dot_at_start (c ∷ s) = c == b'.' && not (is_some (after_last b'.' s))

module _ (nfc lower : Text → Text) where
  pub extension_of : Text → Option Text
  extension_of name = elim (after_last b'.' name) [
    | none ↦ none
    | some ext ↦ if dot_at_start name || is_empty ext then none else some (lower ext)
  ]

  -- The name before it is checked and cut.
  cleaned : Text → Text
  cleaned input = drop_end is_dot_or_blank (
      trim (
        remove_units is_reserved
          (remove_units is_control (last_segment (map to_slash (nfc input))))))

  suffix_of : Text → Text
  suffix_of name = elim (extension_of name) [
    | none ↦ []
    | some ext ↦ if not (is_empty ext) && leb (length ext) 16 then b'.' ∷ ext else []
  ]

  pub sanitize_file_name : Text → Option Text
  unfolding cleaned suffix_of
  sanitize_file_name input =
      let name = cleaned input in
      let suffix = suffix_of name in
      if is_empty name || same_text name dot || same_text name dots
      then none
      else if ltb file_name_max_length (length name)
      then some (take (file_name_max_length - length suffix) name ++ suffix)
      else some name

pub normalize_mime_type : (lower : Text → Text) → Text → Text
normalize_mime_type lower value = lower (trim (before b';' value))

abbrev pub pdf_type : Text
pdf_type =
    b'a' ∷ b'p' ∷ b'p' ∷ b'l' ∷ b'i' ∷ b'c' ∷ b'a' ∷ b't' ∷ b'i' ∷ b'o' ∷ b'n' ∷ b'/' ∷ b'p' ∷ b'd'
    ∷ b'f' ∷ []

abbrev image_slash : Text
image_slash = b'i' ∷ b'm' ∷ b'a' ∷ b'g' ∷ b'e' ∷ b'/' ∷ []

abbrev pub jpeg_type : Text
jpeg_type = image_slash ++ b'j' ∷ b'p' ∷ b'e' ∷ b'g' ∷ []

abbrev pub png_type : Text
png_type = image_slash ++ b'p' ∷ b'n' ∷ b'g' ∷ []

abbrev pub webp_type : Text
webp_type = image_slash ++ b'w' ∷ b'e' ∷ b'b' ∷ b'p' ∷ []

pub mime_type_for_extension : Option Text → Option Text
mime_type_for_extension none = none
mime_type_for_extension (some e) =
    if same_text e (b'p' ∷ b'd' ∷ b'f' ∷ [])
    then some pdf_type
    else if same_text e (b'j' ∷ b'p' ∷ b'g' ∷ [])
        || same_text e (b'j' ∷ b'p' ∷ b'e' ∷ b'g' ∷ [])
        || same_text e (b'j' ∷ b'p' ∷ b'e' ∷ [])
    then some jpeg_type
    else if same_text e (b'p' ∷ b'n' ∷ b'g' ∷ [])
    then some png_type
    else if same_text e (b'w' ∷ b'e' ∷ b'b' ∷ b'p' ∷ [])
    then some webp_type
    else none
