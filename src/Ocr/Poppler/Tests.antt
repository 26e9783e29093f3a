-- ===== src/Ocr/Poppler/Tests.antt =====
-- Runs of the parsers of backend/src/ocr/tools/poppler.service.ts, and the theorem at an input.
use docuai.Base.{◌≡◌, refl, List, [], ◌∷◌, Text, ok}
use docuai.Ocr.Poppler.{
  line_matches, number_from, span, run_tool, match_size, first_line_match, after_prefix,
  match_pages, info, extract_text,
}
use docuai.Ocr.Poppler.Pages.{printed, ended_with, extract_text-printed}

abbrev two_pages : List Text
two_pages = (97 ∷ 10 ∷ []) ∷ (98 ∷ []) ∷ []

-- `Pages: 2` and `Page 2 size: 5 x 8.5 pts`, each on a line
abbrev report : Text
report =
    b'P' ∷ b'a' ∷ b'g' ∷ b'e' ∷ b's' ∷ b':' ∷ 32 ∷ 32 ∷ b'2' ∷ 10 ∷ b'P' ∷ b'a' ∷ b'g' ∷ b'e' ∷ 32
    ∷ b'2' ∷ 32 ∷ b's' ∷ b'i' ∷ b'z' ∷ b'e' ∷ b':' ∷ 32 ∷ b'5' ∷ 32 ∷ b'x' ∷ 32 ∷ b'8' ∷ b'.' ∷ b'5'
    ∷ 32 ∷ b'p' ∷ b't' ∷ b's' ∷ 10 ∷ []

info_run :
    info (λ t. 7) (ended_with report)
    ≡ ok (record { page_count = 2; pages = (2, record { width = 7; height = 7 }) ∷ [] })
unfolding info run_tool first_line_match match_pages after_prefix span number_from line_matches
    match_size
info_run = refl

extract_text-printed_example : extract_text 2 (ended_with (printed two_pages)) ≡ ok two_pages
extract_text-printed_example = extract_text-printed two_pages ((refl, (refl, tt)), ((refl, tt), tt))
