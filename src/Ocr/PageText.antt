-- ===== src/Ocr/PageText.antt =====
-- backend/src/ocr/tools/text.ts: the text of a page. A text is the list of its code points here, as
-- `Array.from` gives them; `nfc` is `normalize('NFC')`, and `is_alphanumeric` the class of letters and
-- digits. The least share of letters and digits is in thousandths.
pub mod Normal
mod Ends
pub mod Usable
mod Tests
use docuai.Base.{
  ℕ, ◌+◌, ◌*◌, Bool, true, false, not, ◌&&◌, ◌||◌, List, [], ◌∷◌, Text, ltb, leb, ◌==◌,
  if◌then◌else◌, length, take, is_space, trim, drop_end, remove_units, split, join, map,
}

pub record NativeTextRule : Type 0 where
  pub min_chars : ℕ
  pub min_alphanumeric_ratio : ℕ

pub record TruncatedText : Type 0 where
  pub text : Text
  pub truncated : Bool
  pub char_count : ℕ

-- `replace(/\r\n?/g, '\n')`; the flag tells that the last unit was a carriage return.
pub line_ends : Bool → Text → Text
line_ends after_cr [] = []
line_ends after_cr (c ∷ s) =
    let rest = line_ends (c == 13) s in
    if c == 13 then 10 ∷ rest else if c == 10 && after_cr then rest else c ∷ rest

-- `[\u0000-\u0008\u000B\u000C\u000E-\u001F\u007F]`
abbrev pub is_removed : ℕ → Bool
is_removed c = leb c 8 || c == 0x0b || c == 0x0c || (leb 0x0e c && leb c 0x1f) || c == 0x7f

-- `[ \t\u00A0]`
abbrev pub is_blank : ℕ → Bool
is_blank c = c == 32 || c == 9 || c == 0xa0

-- `replace(/\n{3,}/g, '\n\n')`; the number is that of the line ends just before.
pub collapse_lines : ℕ → Text → Text
collapse_lines n [] = []
collapse_lines n (c ∷ s) =
    let rest = collapse_lines (if c == 10 then n + 1 else 0) s in
    if c == 10 && leb 2 n then rest else c ∷ rest

-- `split('\n').map((line) => line.replace(/[ \t\u00A0]+$/g, '')).join('\n')`
pub strip_lines : Text → Text
unfolding join split drop_end
strip_lines s = join 10 (map (drop_end is_blank) (split 10 s))

unfoldable pub normalize_extracted_text : (nfc : Text → Text) → Text → Text
unfolding trim collapse_lines strip_lines remove_units line_ends
normalize_extracted_text nfc raw =
    trim (collapse_lines 0 (strip_lines (remove_units is_removed (line_ends false (nfc raw)))))

-- `replace(/\s+/g, ' ')`; the flag tells that the last unit was white space.
pub collapse_spaces : Bool → Text → Text
collapse_spaces after [] = []
collapse_spaces after (c ∷ s) =
    let rest = collapse_spaces (is_space c) s in
    if is_space c then if after then rest else 32 ∷ rest else c ∷ rest

-- `length` of a string counts units of UTF-16.
abbrev pub utf16_length : Text → ℕ
utf16_length [] = 0
utf16_length (c ∷ s) = (if leb 0x10000 c then 2 else 1) + utf16_length s

module _ (is_alphanumeric : ℕ → Bool) where
  -- The loop over the collapsed text: `alphanumeric` and `nonSpace`.
  pub scan_chars : (alphanumeric non_space : ℕ) → Text → ℕ × ℕ
  scan_chars a n [] = (a, n)
  scan_chars a n (c ∷ s) =
      scan_chars (if c == 32 then a else if is_alphanumeric c then a + 1 else a)
        (if c == 32 then n else n + 1) s

  unfoldable pub is_native_text_usable : Text → NativeTextRule → Bool
  unfolding trim collapse_spaces scan_chars
  is_native_text_usable text rule =
      let collapsed = trim (collapse_spaces false text) in
      let (alphanumeric, non_space) = scan_chars 0 0 collapsed in
      if ltb (utf16_length collapsed) rule.min_chars
      then false
      else if non_space == 0
      then false
      else leb (rule.min_alphanumeric_ratio * non_space) (1000 * alphanumeric)

unfoldable pub truncate_text : Text → (max_chars : ℕ) → TruncatedText
truncate_text text max_chars =
    if leb (length text) max_chars
    then record { text = text; truncated = false; char_count = length text }
    else record { text = take max_chars text; truncated = true; char_count = max_chars }
