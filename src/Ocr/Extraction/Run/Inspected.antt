-- ===== src/Ocr/Extraction/Run/Inspected.antt =====
-- What inspect finds out about a file, and what extract yields for it
-- (backend/src/ocr/ocr-extraction.service.ts).
use docuai.Base.{
  subst, sym, ◌+◌, ◌-◌, ◌≤◌, ◌≡◌, ◌⊎◌, true, false, Option, none, some, Text, arith, length, ok,
  err, Bool-cases, Option-cases, Result-cases, inl, inr, All,
}
use docuai.Ocr.Processing.{Failure}
use docuai.Ocr.FileSignature.{Bytes, DetectedFormat, detect_format}
use docuai.Ocr.Extraction.{
  ExtractionConfig, ExtractionTools, ExtractionInput, InspectedFile, PdfInfo, is_pdf,
}
use docuai.Ocr.Extraction.Run.{
  extract_image, extract_as, inspect, inspect_pdf, inspect_image, inspect_format, extract, differs,
}
use docuai.Ocr.Extraction.Run.OnePage.{aborts}
use docuai.Ocr.Extraction.Run.Pages.{
  Yields, Consecutive, chars, IsCounted, extract_pdf-Yields, extract_image-Yields,
}

-- A PDF comes with its pages, of which there is one at least and no more than allowed; an image is one
-- page.
abbrev pub IsInspected : ExtractionConfig → InspectedFile → Type 0
IsInspected config f =
    ((pdf : PdfInfo) × (is_pdf f.format ≡ true)
      × (f.pdf ≡ some pdf)
      × (f.total_pages ≡ pdf.page_count)
      × (1 ≤ f.total_pages)
      × (f.total_pages ≤ config.max_pdf_pages))
    ⊎ ((is_pdf f.format ≡ false) × (f.total_pages ≡ 1))

module _ (config : ExtractionConfig) (tools : ExtractionTools) where
  inspect_pdf-IsInspected :
      (pdf : PdfInfo) (f : InspectedFile)
      → inspect_pdf config tools pdf ≡ ok f
      → IsInspected config f
  unfolding inspect_pdf
  inspect_pdf-IsInspected pdf f e =
      inl (pdf, ground arith, ground arith, ground arith, ground arith, ground arith)

  inspect_image-IsInspected :
      (format : DetectedFormat) (head : Bytes) (f : InspectedFile)
      → is_pdf format ≡ false
      → inspect_image config tools format head ≡ ok f
      → IsInspected config f
  unfolding inspect_image
  inspect_image-IsInspected format head f image e = inr (ground arith, ground arith)

  inspect_format-IsInspected :
      (expected : Option Text) (format : DetectedFormat) (head : Bytes) (f : InspectedFile)
      → inspect_format config tools expected format head ≡ ok f
      → IsInspected config f
  unfolding inspect_format
  inspect_format-IsInspected expected format head f e =
      elim (Bool-cases (differs config tools format expected)) [
        | inl d ↦ absurd (let g : err _ ≡ ok f = rw (inspect_format, d) at e in cc)
        | inr d ↦ elim (Bool-cases (is_pdf format)) [
          | inr i ↦ inspect_image-IsInspected format head f i (rw (inspect_format, d, i) at e)
          | inl i ↦ elim (Result-cases (tools.info config.page_timeout_ms)) [
            | inr (x, r) ↦ absurd (let g : err x ≡ ok f = rw (inspect_format, d, i, r) at e in cc)
            | inl (pdf, r) ↦ inspect_pdf-IsInspected pdf f (rw (inspect_format, d, i, r) at e)
          ]
        ]
      ]

  pub inspect-IsInspected :
      (expected : Option Text) (f : InspectedFile)
      → inspect config tools expected ≡ ok f
      → IsInspected config f
  unfolding inspect
  inspect-IsInspected expected f e = elim (Result-cases tools.read_head) [
    | inr (x, r) ↦ absurd (let g : err x ≡ ok f = rw (inspect, r) at e in cc)
    | inl (head, r) ↦ elim (Option-cases (detect_format head)) [
      | inl d ↦ absurd (let g : err _ ≡ ok f = rw (inspect, r, d) at e in cc)
      | inr (format, d) ↦
          inspect_format-IsInspected expected format head f (rw (inspect, r, d) at e)
    ]
  ]

  -- What the extraction yields for a file that was inspected: the pages from the first one asked for,
  -- without a gap, and up to the last one unless it is cut short, which only a missing tool or an
  -- unknown error does; no page has more text than a page may have, and all together no more than the
  -- budget of the document.
  pub extract_lem :
      (expected : Option Text) (input : ExtractionInput)
      → inspect config tools expected ≡ ok input.inspected
      → 1 ≤ input.start_page
      → let x = extract config tools input in
        Consecutive input.start_page x.pages
        × (x.failure ≡ none → length x.pages ≡ input.inspected.total_pages + 1 - input.start_page)
        × ((e : Failure) → x.failure ≡ some e → aborts e ≡ true)
        × (chars x.pages ≤ input.char_budget)
        × All (IsCounted config.max_text_per_page) x.pages
  unfolding extract extract_as
  extract_lem expected input e first = elim (inspect-IsInspected expected input.inspected e) [
    | inl (pdf, format, known, total, least, most) ↦
        let same : extract_as config tools true (some pdf) input ≡ extract config tools input =
          λ i. extract_as config tools (sym format i) (sym known i) input in
        subst
          (λ n.
            Yields (n + 1 - input.start_page) input.start_page input.char_budget
              config.max_text_per_page (extract config tools input))
          (sym total)
          (subst
            (Yields (pdf.page_count + 1 - input.start_page) input.start_page input.char_budget
              config.max_text_per_page)
            same (extract_pdf-Yields config tools input pdf))
    | inr (format, total) ↦
        let same : extract_image config tools input ≡ extract config tools input =
          λ i. extract_as config tools (sym format i) input.inspected.pdf input in
        subst
          (λ n.
            Yields (n + 1 - input.start_page) input.start_page input.char_budget
              config.max_text_per_page (extract config tools input))
          (sym total)
          (subst
            (Yields (2 - input.start_page) input.start_page input.char_budget
              config.max_text_per_page)
            same (extract_image-Yields config tools input first))
  ]
