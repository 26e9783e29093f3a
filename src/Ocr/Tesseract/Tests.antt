-- ===== src/Ocr/Tesseract/Tests.antt =====
-- Runs of backend/src/ocr/providers/tesseract-ocr.provider.ts, and the theorem at a concrete input.
use docuai.Ocr.Languages.{is_language_code}
use docuai.Base.{
  trim, ℕ, ◌≡◌, ◌≤◌, ◌↔◌, refl, some, none, Option, [], ◌∷◌, Text, length, drop, split, map,
  if◌then◌else◌, ◌==◌, is_empty,
}
use docuai.Ocr.Tesseract.{parse_tsv_confidence, parse_language_list}
use docuai.Ocr.Tesseract.Confidence.{parse_tsv_confidence_bounds}

-- Eleven columns and the text of a row; a comma stands for the tab.
abbrev row : Text → Text
row = map (λ c. if c == b',' then 9 else c)

abbrev table : Text
table =
    10
    ∷ row (
        b'5' ∷ b',' ∷ b',' ∷ b',' ∷ b',' ∷ b',' ∷ b',' ∷ b',' ∷ b',' ∷ b',' ∷ b',' ∷ b'9' ∷ b','
        ∷ b'a' ∷ 10 ∷ b'5' ∷ b',' ∷ b',' ∷ b',' ∷ b',' ∷ b',' ∷ b',' ∷ b',' ∷ b',' ∷ b',' ∷ b','
        ∷ b'9' ∷ b',' ∷ 32 ∷ [])

-- Any number is read as 91.5 here.
abbrev reads : Text → Option ℕ
reads t = if is_empty t then none else some 91500000

confidence_run : parse_tsv_confidence reads table ≡ (some 9150, 1)
unfolding parse_tsv_confidence split trim
confidence_run = refl

languages_run :
    parse_language_list
      (b'o' ∷ b's' ∷ b'd' ∷ 10 ∷ b'i' ∷ b'n' ∷ b'd' ∷ 32 ∷ 10 ∷ b'e' ∷ b'n' ∷ b'g' ∷ [])
    ≡ (b'e' ∷ b'n' ∷ b'g' ∷ []) ∷ (b'i' ∷ b'n' ∷ b'd' ∷ []) ∷ []
unfolding parse_language_list split is_language_code trim
languages_run = refl

parse_tsv_confidence_bounds_example :
    ((c : ℕ) → (parse_tsv_confidence reads table).0 ≡ some c → c ≤ 10000)
    × (((parse_tsv_confidence reads table).0 ≡ none) ↔ ((parse_tsv_confidence reads table).1 ≡ 0))
    × ((parse_tsv_confidence reads table).1 ≤ length (drop 1 (split 10 table)))
parse_tsv_confidence_bounds_example = parse_tsv_confidence_bounds reads table
