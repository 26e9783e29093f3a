-- ===== src/Ocr/Tesseract.antt =====
-- backend/src/ocr/providers/tesseract-ocr.provider.ts: the result of a recognition from the outcome of
-- the command and the files that it leaves. `parse_float` reads a number in millionths, none if it is
-- negative or no finite number; the mean is computed exactly, in place of floats, and a confidence is
-- in hundredths.
pub mod Confidence
mod Tests
use docuai.Base.{
  ℕ, ◌+◌, ◌-◌, ◌*◌, ◌/◌, zero, suc, Bool, true, false, not, ◌&&◌, ◌||◌, Option, none, some, List,
  [], ◌∷◌, Text, leb, ltb, ◌==◌, if◌then◌else◌, is_empty, length, get_elem?, get_or_else, map, min,
  split, trim, same_text, drop, Result, ok, err,
}
use docuai.Schema.{OcrErrorCode}
use docuai.Ocr.Processing.{Failure, processing, permanent, transient, unexpected}
use docuai.Ocr.Commands.{CommandOutcome, RunCommandResult, ended, command_not_found, crashed}
use docuai.Ocr.Extraction.{OcrRecognizeResult}
use docuai.Ocr.Poppler.{run_tool, exited_well, ends_line, after_prefix}
use docuai.Ocr.Languages.{is_language_code}

-- A row of the table that counts: its confidence, at most 100, in millionths.
pub word_confidence : (parse_float : Text → Option ℕ) → Text → Option ℕ
word_confidence parse_float line =
    let cols = split b'\t' line in
    if leb (length cols) 11 || not (same_text (get_or_else (get_elem? cols 0) []) (b'5' ∷ []))
    then none
    else if is_empty (trim (get_or_else (get_elem? cols 11) []))
    then none
    else elim (parse_float (get_or_else (get_elem? cols 10) [])) [
      | none ↦ none
      | some conf ↦ some (min 100000000 conf)
    ]

-- The loop over the lines: the sum, and the number of words.
pub sum_words : (parse_float : Text → Option ℕ) → (sum count : ℕ) → List Text → ℕ × ℕ
sum_words parse_float sum count [] = (sum, count)
sum_words parse_float sum count (line ∷ lines) =
    let word = word_confidence parse_float line in
    sum_words parse_float (sum + get_or_else word 0)
      (elim word [ none ↦ count | some c ↦ count + 1 ]) lines

-- The mean in hundredths, rounded half up, and the number of words.
pub mean_of : (sum count : ℕ) → Option ℕ × ℕ
mean_of sum count =
    if count == 0 then (none, 0) else (some ((sum * 2 + count * 10000) / (count * 20000)), count)

-- parseTsvConfidence
pub parse_tsv_confidence : (parse_float : Text → Option ℕ) → Text → Option ℕ × ℕ
unfolding mean_of sum_words word_confidence
parse_tsv_confidence parse_float tsv =
    let (sum, count) = sum_words parse_float 0 0 (drop 1 (split 10 tsv)) in mean_of sum count

-- ASCII letters in lower case, for a pattern with the flag `i`.
abbrev lower_ascii : ℕ → ℕ
lower_ascii c = if leb b'A' c && leb c b'Z' then c + 32 else c

-- The text occurs, on the line of the start if the flag is set.
pub occurs : (one_line : Bool) → Text → Text → Bool
occurs one_line part [] = is_empty part
occurs one_line part (c ∷ s) =
    let rest = occurs one_line part s in
    elim (after_prefix part (c ∷ s)) [
      | some r ↦ true
      | none ↦ if one_line && ends_line c then false else rest
    ]

-- `Image file .* cannot be read`
pub unreadable_image : Text → Bool
unreadable_image [] = false
unreadable_image (c ∷ s) =
    let rest = unreadable_image s in
    elim (after_prefix (b'i' ∷ b'm' ∷ b'a' ∷ b'g' ∷ b'e' ∷ 32 ∷ b'f' ∷ b'i' ∷ b'l' ∷ b'e' ∷ 32 ∷ [])
      (c ∷ s)) [
        | none ↦ rest
        | some r ↦
            occurs true
              (32 ∷ b'c' ∷ b'a' ∷ b'n' ∷ b'n' ∷ b'o' ∷ b't' ∷ 32 ∷ b'b' ∷ b'e' ∷ 32 ∷ b'r' ∷ b'e'
                ∷ b'a' ∷ b'd' ∷ [])
              r
            || rest
      ]

-- The image cannot be decoded: `/pixRead|Image file .* cannot be read|not read/i`
pub is_undecodable : Text → Bool
is_undecodable stderr =
    let s = map lower_ascii stderr in
    occurs false (b'p' ∷ b'i' ∷ b'x' ∷ b'r' ∷ b'e' ∷ b'a' ∷ b'd' ∷ []) s
    || unreadable_image s
    || occurs false (b'n' ∷ b'o' ∷ b't' ∷ 32 ∷ b'r' ∷ b'e' ∷ b'a' ∷ b'd' ∷ []) s

-- `recognize`; the files are empty texts where they cannot be read.
pub recognize :
    (parse_float : Text → Option ℕ)
    → CommandOutcome
    → (txt tsv : Text) → Result Failure OcrRecognizeResult
recognize parse_float outcome txt tsv = elim (run_tool outcome) [
  | err e ↦ err e
  | ok result ↦
      if exited_well result.exit_code
      then ok (record { text = txt; confidence = (parse_tsv_confidence parse_float tsv).0 })
      else if is_undecodable result.stderr
      then err (permanent OcrErrorCode.ocr_invalid_file)
      else err (transient OcrErrorCode.ocr_processing_failed)
]

-- `sort()`: by the units, a shorter text first.
abbrev text_le : Text → Text → Bool
text_le [] t = true
text_le (c ∷ s) [] = false
text_le (c ∷ s) (d ∷ t) = ltb c d || (c == d && text_le s t)

abbrev insert_text : Text → List Text → List Text
insert_text t [] = t ∷ []
insert_text t (u ∷ us) = if text_le t u then t ∷ u ∷ us else u ∷ insert_text t us

-- The codes of the lines but `osd`, sorted.
pub sorted_codes : List Text → List Text
sorted_codes [] = []
sorted_codes (line ∷ lines) =
    let rest = sorted_codes lines in
    let code = trim line in
    if is_language_code code && not (same_text code (b'o' ∷ b's' ∷ b'd' ∷ []))
    then insert_text code rest
    else rest

pub parse_language_list : Text → List Text
unfolding sorted_codes
parse_language_list output = sorted_codes (split 10 output)
