-- ===== src/Ocr/Poppler.antt =====
-- backend/src/ocr/tools/poppler.service.ts: what is read from the output of pdfinfo and pdftotext, and
-- the errors of the three tools. A command is given by its outcome, its output by the text that it
-- encodes; `parse_float` reads a length in thousandths of a point.
pub mod Pages
mod Tests
use docuai.Base.{
  ℕ, ◌+◌, ◌-◌, ◌*◌, zero, suc, Bool, true, false, not, ◌&&◌, ◌||◌, Option, none, some, List, [],
  ◌∷◌, ◌++◌, Text, leb, ◌==◌, if◌then◌else◌, is_empty, is_space, any, length, drop_while, split,
  Result, ok, err,
}
use docuai.Schema.{OcrErrorCode}
use docuai.Ocr.Processing.{Failure, processing, permanent, transient, unexpected}
use docuai.Ocr.Commands.{CommandOutcome, RunCommandResult, ended, command_not_found, crashed}
use docuai.Ocr.Extraction.{PdfInfo, PdfPageInfo}

-- `PopplerService.run`
pub run_tool : CommandOutcome → Result Failure RunCommandResult
run_tool command_not_found = err (
    processing (record {
      code = OcrErrorCode.ocr_processing_failed;
      permanent = false;
      command_not_found = true;
    }))
run_tool crashed = err unexpected
run_tool (ended result) =
    if result.timed_out then err (transient OcrErrorCode.ocr_processing_timeout) else ok result

abbrev pub exited_well : Option ℕ → Bool
exited_well none = false
exited_well (some code) = code == 0

abbrev pub is_digit : ℕ → Bool
is_digit c = leb b'0' c && leb c b'9'

-- The line terminators of `^` and `$`.
abbrev pub ends_line : ℕ → Bool
ends_line c = c == 10 || c == 13 || c == 0x2028 || c == 0x2029

-- The longest start whose units pass, and the rest.
pub span : (ℕ → Bool) → Text → Text × Text
span p [] = ([], [])
span p (c ∷ s) = let (t, r) = span p s in if p c then (c ∷ t, r) else ([], c ∷ s)

-- The rest behind a literal text.
pub after_prefix : Text → Text → Option Text
after_prefix [] s = some s
after_prefix (p ∷ ps) [] = none
after_prefix (p ∷ ps) (c ∷ s) = if p == c then after_prefix ps s else none

-- A match of at least one unit.
abbrev pub span_some : (ℕ → Bool) → Text → Option (Text × Text)
span_some p s = let (t, r) = span p s in if is_empty t then none else some (t, r)

-- `Number.parseInt(digits, 10)`
pub number_from : ℕ → Text → ℕ
number_from n [] = n
number_from n (c ∷ s) = number_from (n * 10 + (c - b'0')) s

-- What a match hands on to the rest of the pattern.
infixl 5 ◌>>=◌
abbrev pub ◌>>=◌ {ℓ κ} : {A : Type ℓ} {B : Type κ} → Option A → (A → Option B) → Option B
none >>= f = none
some a >>= f = f a

-- `\s*$`: the white space holds the end of a line, or the text ends behind it.
abbrev pub at_line_end : Text → Bool
at_line_end s = let (t, r) = span is_space s in any ends_line t || is_empty r

-- `Pages:\s+(\d+)\s*$` at the start of a text
match_pages : Text → Option ℕ
match_pages s = do
  r ← after_prefix (b'P' ∷ b'a' ∷ b'g' ∷ b'e' ∷ b's' ∷ b':' ∷ []) s
  (t, r') ← span_some is_space r
  (digits, rest) ← span_some is_digit r'
  if at_line_end rest then some (number_from 0 digits) else none

-- `Page\s+(\d+) size:\s+([\d.]+) x ([\d.]+) pts` at the start of a text
match_size : (parse_float : Text → ℕ) → Text → Option (ℕ × PdfPageInfo)
match_size parse_float s = do
  r ← after_prefix (b'P' ∷ b'a' ∷ b'g' ∷ b'e' ∷ []) s
  (t, r₁) ← span_some is_space r
  (digits, r₂) ← span_some is_digit r₁
  r₃ ← after_prefix (32 ∷ b's' ∷ b'i' ∷ b'z' ∷ b'e' ∷ b':' ∷ []) r₂
  (u, r₄) ← span_some is_space r₃
  (width, r₅) ← span_some (λ c. is_digit c || c == b'.') r₄
  r₆ ← after_prefix (32 ∷ b'x' ∷ 32 ∷ []) r₅
  (height, r₇) ← span_some (λ c. is_digit c || c == b'.') r₆
  r₈ ← after_prefix (32 ∷ b'p' ∷ b't' ∷ b's' ∷ []) r₇
  some (number_from 0 digits, record { width = parse_float width; height = parse_float height })

-- The first match of a pattern at the start of a line.
pub first_line_match {ℓ} : {A : Type ℓ} → (Text → Option A) → (at_start : Bool) → Text → Option A
first_line_match m at_start [] = none
first_line_match m at_start (c ∷ s) =
    let rest = first_line_match m (ends_line c) s in
    if at_start then elim (m (c ∷ s)) [ none ↦ rest | some a ↦ some a ] else rest

-- All matches, the last one first; none of them holds the start of another.
pub line_matches {ℓ} : {A : Type ℓ} → (Text → Option A) → (at_start : Bool) → List A → Text → List A
line_matches m at_start found [] = found
line_matches m at_start found (c ∷ s) =
    line_matches m (ends_line c)
      (if at_start then elim (m (c ∷ s)) [ none ↦ found | some a ↦ a ∷ found ] else found) s

-- `info`, from the outcome of pdfinfo
pub info : (parse_float : Text → ℕ) → CommandOutcome → Result Failure PdfInfo
info parse_float outcome = elim (run_tool outcome) [
  | err e ↦ err e
  | ok result ↦ elim (first_line_match match_pages true result.stdout) [
    | none ↦ err (permanent OcrErrorCode.ocr_invalid_file)
    | some count ↦
        if exited_well result.exit_code
        then ok (record {
          page_count = count;
          pages = line_matches (match_size parse_float) true [] result.stdout;
        })
        else err (permanent OcrErrorCode.ocr_invalid_file)
  ]
]

-- `while (pages.length > pageCount) pages.pop();` and `push('')`: exactly that many pages.
pub fit_pages : ℕ → List Text → List Text
fit_pages zero pages = []
fit_pages (suc n) [] = [] ∷ fit_pages n []
fit_pages (suc n) (p ∷ pages) = p ∷ fit_pages n pages

-- `extractText`, from the outcome of pdftotext
pub extract_text : (page_count : ℕ) → CommandOutcome → Result Failure (List Text)
extract_text page_count outcome = elim (run_tool outcome) [
  | err e ↦ err e
  | ok result ↦
      if exited_well result.exit_code
      then ok (fit_pages page_count (split 12 result.stdout))
      else err (permanent OcrErrorCode.ocr_invalid_file)
]

-- `renderPage`, from the outcome of pdftoppm and whether its file exists
pub render_page : CommandOutcome → (file_exists : Bool) → Result Failure (Unit {0})
render_page outcome file_exists = elim (run_tool outcome) [
  | err e ↦ err e
  | ok result ↦
      if exited_well result.exit_code && file_exists
      then ok tt
      else err (permanent OcrErrorCode.ocr_invalid_file)
]
