-- ===== src/Ocr/Extraction/Run/Tests.antt =====
-- The theorems on the extraction (backend/src/ocr/ocr-extraction.service.ts) at a concrete input, and
-- a run of it.
use docuai.Ocr.FileSignature.{detect_format}
use docuai.Ocr.PageText.{normalize_extracted_text, is_native_text_usable}
use docuai.Base.{◌+◌, ◌-◌, ◌≤◌, ◌≡◌, refl, true, none, some, All, length, ok, arith, map, [], ◌∷◌}
use docuai.Ocr.Processing.{Failure}
use docuai.Ocr.Extraction.{root_up_to, store_text, ExtractedPage}
use docuai.Ocr.Extraction.Samples.{sample_config, sample_tools, sample_input, sample_file}
use docuai.Ocr.Extraction.Run.{
  extract_as, render_and_ocr, extract_page, extract_pages, inspect_format, extract_pdf,
  extract_with_text, inspect_pdf, ocr_page, differs, inspect, extract, render_dpi_for,
}
use docuai.Ocr.Extraction.Run.OnePage.{aborts}
use docuai.Ocr.Extraction.Run.Pages.{Consecutive, chars, IsCounted}
use docuai.Ocr.Extraction.Run.Inspected.{extract_lem}

inspect_sample : inspect sample_config sample_tools none ≡ ok sample_file
unfolding inspect detect_format inspect_format differs inspect_pdf
inspect_sample = refl

extract_run :
    map
      (λ (p : ExtractedPage). p.char_count)
      (extract sample_config sample_tools sample_input).pages
    ≡ 4 ∷ 2 ∷ []
unfolding extract extract_as extract_pdf extract_with_text extract_pages extract_page
    is_native_text_usable normalize_extracted_text store_text render_and_ocr render_dpi_for
    root_up_to ocr_page
extract_run = refl

extract_lem_example :
    Consecutive 1 (extract sample_config sample_tools sample_input).pages
    × ((extract sample_config sample_tools sample_input).failure ≡ none
        → length (extract sample_config sample_tools sample_input).pages ≡ 2 + 1 - 1)
    × ((e : Failure)
        → (extract sample_config sample_tools sample_input).failure ≡ some e
        → aborts e ≡ true)
    × (chars (extract sample_config sample_tools sample_input).pages ≤ 6)
    × All (IsCounted 4) (extract sample_config sample_tools sample_input).pages
extract_lem_example =
    extract_lem sample_config sample_tools none sample_input inspect_sample (omega arith)
