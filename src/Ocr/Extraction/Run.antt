-- ===== src/Ocr/Extraction/Run.antt =====
-- backend/src/ocr/ocr-extraction.service.ts: inspect, and the loops that yield the pages.
pub mod OnePage
pub mod Pages
pub mod Inspected
mod Tests
pub mod Rendering
use docuai.Base.{
  true, ℕ, zero, suc, ◌+◌, ◌-◌, ◌*◌, ◌/◌, Bool, false, not, ◌&&◌, Option, none, some, List, [], ◌∷◌,
  Text, ltb, leb, ◌==◌, if◌then◌else◌, is_empty, get_or_else, get_elem?, min, max, Result, ok, err,
  same_text,
}
use docuai.Schema.{OcrErrorCode, OcrExtractionMethod}
use docuai.Ocr.FileSignature.{Bytes, DetectedFormat, detect_format, read_image_dimensions}
use docuai.Ocr.PageText.{normalize_extracted_text, is_native_text_usable}
use docuai.Ocr.Processing.{Failure, permanent, unexpected}
use docuai.Ocr.Extraction.{
  ExtractedPage, PdfInfo, InspectedFile, ExtractionConfig, ExtractionTools, ExtractionInput,
  Extracted, Moment, Image, failed_page, store_text, mime_of, is_pdf, page_failure, page_size,
  root_up_to, min_render_dpi,
}

module _ (config : ExtractionConfig) (tools : ExtractionTools) where
  -- inspect, for a file of a known format that is no PDF
  pub inspect_image : DetectedFormat → Bytes → Result Failure InspectedFile
  inspect_image format head = elim (read_image_dimensions format head) [
    | none ↦ err unexpected
    | some dimensions ↦ elim dimensions [
      | none ↦ err (permanent OcrErrorCode.ocr_invalid_file)
      | some d ↦
          if ltb config.max_image_pixels (d.width * d.height)
          then err (permanent OcrErrorCode.ocr_page_too_large)
          else ok (record { format = format; total_pages = 1; pdf = none })
    ]
  ]

  pub inspect_pdf : PdfInfo → Result Failure InspectedFile
  inspect_pdf pdf =
      if ltb pdf.page_count 1
      then err (permanent OcrErrorCode.ocr_invalid_file)
      else if ltb config.max_pdf_pages pdf.page_count
      then err (permanent OcrErrorCode.ocr_page_limit_exceeded)
      else ok (record { format = DetectedFormat.pdf; total_pages = pdf.page_count; pdf = some pdf })

  -- `expectedMimeType && mimeOf(format) !== expectedMimeType`
  differs : DetectedFormat → Option Text → Bool
  differs format none = false
  differs format (some t) = not (is_empty t) && not (same_text (mime_of format) t)

  pub inspect_format : Option Text → DetectedFormat → Bytes → Result Failure InspectedFile
  inspect_format expected format head =
      if differs format expected
      then err (permanent OcrErrorCode.ocr_unsupported_file_type)
      else if is_pdf format
      then elim (tools.info config.page_timeout_ms) [ err e ↦ err e | ok pdf ↦ inspect_pdf pdf ]
      else inspect_image format head

  pub inspect : Option Text → Result Failure InspectedFile
  inspect expected = elim tools.read_head [
    | err e ↦ err e
    | ok head ↦ elim (detect_format head) [
      | none ↦ err (permanent OcrErrorCode.ocr_unsupported_file_type)
      | some format ↦ inspect_format expected format head
    ]
  ]

  -- `pageBudget(deadline)` at a time
  pub page_budget : (deadline now : ℕ) → ℕ
  page_budget deadline now = max 1000 (min config.page_timeout_ms (deadline - now))

  -- 72 points are an inch; a page too large for the least DPI is refused.
  pub render_dpi_for : PdfInfo → ℕ → Result Failure ℕ
  render_dpi_for pdf page_number = elim (page_size page_number pdf.pages) [
    | none ↦ ok config.render_dpi
    | some size ↦
        if size.width * size.height == 0
        then ok config.render_dpi
        else let dpi =
            root_up_to config.render_dpi
              (config.max_render_pixels * (72000 * 72000) / (size.width * size.height)) in
          if ltb dpi min_render_dpi then err (permanent OcrErrorCode.ocr_page_too_large) else ok dpi
  ]

  -- `catch (error)` of a page
  settle : ℕ → Failure → Result Failure ExtractedPage
  settle page_number e = elim (page_failure e page_number) [ none ↦ err e | some p ↦ ok p ]

  pub ocr_page : ExtractionInput → ℕ → Image → (budget : ℕ) → Result Failure ExtractedPage
  ocr_page input page_number image budget =
      elim (tools.recognize image input.language
        (page_budget input.deadline (tools.clock (Moment.page_recognition page_number)))) [
          | err e ↦ settle page_number e
          | ok r ↦ ok (
              store_text page_number OcrExtractionMethod.ocr
                (normalize_extracted_text tools.nfc r.text) r.confidence budget
                config.max_text_per_page)
        ]

  -- The `try` block of a page that is rendered.
  render_and_ocr : ExtractionInput → PdfInfo → ℕ → (budget : ℕ) → Result Failure ExtractedPage
  render_and_ocr input pdf page_number budget = elim (render_dpi_for pdf page_number) [
    | err e ↦ err e
    | ok dpi ↦
        elim (tools.render_page page_number dpi
          (page_budget input.deadline (tools.clock (Moment.page_render page_number)))) [
            | err e ↦ err e
            | ok _ ↦ ocr_page input page_number (Image.rendered page_number) budget
          ]
  ]

  -- One round of the loop over the pages of a PDF.
  pub extract_page :
      ExtractionInput → PdfInfo → List Text → ℕ → (budget : ℕ) → Result Failure ExtractedPage
  extract_page input pdf native_pages page_number budget =
      let native =
        normalize_extracted_text tools.nfc
          (get_or_else (get_elem? native_pages (page_number - 1)) []) in
      if leb input.deadline (tools.clock (Moment.page_start page_number))
      then ok (failed_page page_number OcrErrorCode.ocr_processing_timeout none)
      else if is_native_text_usable tools.is_alphanumeric native config.native_text
      then ok (
          store_text page_number OcrExtractionMethod.native_text native none budget
            config.max_text_per_page)
      else elim (render_and_ocr input pdf page_number budget) [
        | err e ↦ settle page_number e
        | ok p ↦ ok p
      ]

  -- The loop, with the number of pages left; a throw ends it.
  pub extract_pages :
      ExtractionInput → PdfInfo → List Text → (left page_number budget : ℕ) → Extracted
  extract_pages input pdf native_pages zero page_number budget = record {
    pages = [];
    failure = none;
  }
  extract_pages input pdf native_pages (suc left) page_number budget =
      elim (extract_page input pdf native_pages page_number budget) [
        | err e ↦ record { pages = []; failure = some e }
        | ok p ↦
            let rest =
              extract_pages input pdf native_pages left (page_number + 1) (budget - p.char_count) in
            record { pages = p ∷ rest.pages; failure = rest.failure }
      ]

  -- What `extractPdf` does with the text layer; one that cannot be read counts as empty pages.
  pub extract_with_text : ExtractionInput → PdfInfo → Result Failure (List Text) → Extracted
  extract_with_text input pdf (ok native_pages) =
      extract_pages input pdf native_pages (pdf.page_count + 1 - input.start_page) input.start_page
        input.char_budget
  extract_with_text input pdf (err (Failure.processing e)) =
      extract_pages input pdf [] (pdf.page_count + 1 - input.start_page) input.start_page
        input.char_budget
  extract_with_text input pdf (err Failure.storage_failure) = record {
    pages = [];
    failure = some Failure.storage_failure;
  }
  extract_with_text input pdf (err Failure.unexpected) = record {
    pages = [];
    failure = some Failure.unexpected;
  }

  pub extract_pdf : ExtractionInput → PdfInfo → Extracted
  extract_pdf input pdf = extract_with_text input pdf (
      tools.extract_text pdf.page_count (page_budget input.deadline (tools.clock Moment.text_layer))
        (config.max_text_per_document * 4 + 1024 * 1024))

  pub extract_image : ExtractionInput → Extracted
  extract_image input =
      if ltb 1 input.start_page
      then record { pages = []; failure = none }
      else elim (ocr_page input 1 Image.stored_file input.char_budget) [
        | err e ↦ record { pages = []; failure = some e }
        | ok p ↦ record { pages = p ∷ []; failure = none }
      ]

  -- `inspected.pdf!` of an inspected PDF is there.
  extract_as : (pdf_format : Bool) → Option PdfInfo → ExtractionInput → Extracted
  extract_as true none input = record { pages = []; failure = some Failure.unexpected }
  extract_as true (some pdf) input = extract_pdf input pdf
  extract_as false pdf input = extract_image input

  pub extract : ExtractionInput → Extracted
  extract input = extract_as (is_pdf input.inspected.format) input.inspected.pdf input
