-- ===== src/Ocr/PageText/Tests.antt =====
-- The theorems on the text of a page (backend/src/ocr/tools/text.ts) at concrete inputs, and runs.
use docuai.Base.{false, ◌*◌, ◌≤◌, ◌<◌, [], ◌∷◌, ◌≡◌, ◌↔◌, refl, true, Text, leb, trim}
use docuai.Ocr.PageText.{
  NativeTextRule, normalize_extracted_text, is_native_text_usable, utf16_length, collapse_spaces,
}
use docuai.Ocr.PageText.Normal.{IsNormal, normalize_extracted_text-IsNormal}
use docuai.Ocr.PageText.Usable.{is_native_text_usable_iff, count, is_visible}

abbrev raw : Text
raw = 32 ∷ 97 ∷ 32 ∷ 13 ∷ 10 ∷ 10 ∷ 9 ∷ 13 ∷ 10 ∷ 0 ∷ 98 ∷ 12 ∷ []

abbrev rule : NativeTextRule
rule = record { min_chars = 2; min_alphanumeric_ratio = 500 }

normalize_run : normalize_extracted_text (λ s. s) raw ≡ 97 ∷ 10 ∷ 10 ∷ 98 ∷ []
unfolding normalize_extracted_text
normalize_run = refl

usable_run : is_native_text_usable (λ c. leb 97 c) raw rule ≡ true
unfolding is_native_text_usable
usable_run = refl

normalize_extracted_text-IsNormal_example : IsNormal (normalize_extracted_text (λ s. s) raw)
normalize_extracted_text-IsNormal_example = normalize_extracted_text-IsNormal (λ s. s) raw

is_native_text_usable_iff_example : (is_native_text_usable (λ c. leb 97 c) raw rule ≡ true) ↔ (
    (2 ≤ utf16_length (trim (collapse_spaces false raw)))
    × (0 < count (is_visible (λ c. true)) raw)
    × (500 * count (is_visible (λ c. true)) raw ≤ 1000 * count (is_visible (λ c. leb 97 c)) raw))
is_native_text_usable_iff_example = is_native_text_usable_iff (λ c. leb 97 c) raw rule
