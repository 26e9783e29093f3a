-- ===== src/Ocr/Extraction/Run/OnePage.antt =====
-- One round of the extraction (backend/src/ocr/ocr-extraction.service.ts): the page that it yields, or
-- the failure that it throws.
use docuai.Base.{
  get_elem?, leb→lt, ℕ, ◌-◌, ◌≤◌, ◌≡◌, refl, Bool, true, Option, none, List, [], Text, arith,
  length, get_or_else, min, is_empty, Result, ok, err, Bool-cases, Result-cases, inl, inr, leb,
  ◌==◌, length-take,
}
use docuai.Ocr.PageText.{truncate_text, normalize_extracted_text, is_native_text_usable}
use docuai.Ocr.Processing.{Failure, processing, storage_failure, unexpected}
use docuai.Ocr.Extraction.{
  OcrExtractionMethod, ExtractionConfig, ExtractionTools, ExtractionInput, ExtractedPage, PdfInfo,
  Image, Moment, store_text, page_failure,
}
use docuai.Ocr.Extraction.Run.{
  settle, ocr_page, render_and_ocr, extract_page, render_dpi_for, page_budget,
}

-- The failures that end the job rather than one page: a tool is missing, or the error is unknown.
abbrev pub aborts : Failure → Bool
aborts (processing e) = e.command_not_found
aborts storage_failure = true
aborts unexpected = true

-- A page of a number whose text fits the budget of the document and the limit of a page.
abbrev pub Fits : (n budget most : ℕ) → ExtractedPage → Type 0
Fits n budget most p =
    (p.page_number ≡ n)
    × (p.char_count ≤ budget)
    × (p.char_count ≤ most)
    × (p.char_count ≡ length (get_or_else p.text []))

abbrev pub PageOutcome : (n budget most : ℕ) → Result Failure ExtractedPage → Type 0
PageOutcome n budget most (ok p) = Fits n budget most p
PageOutcome n budget most (err e) = aborts e ≡ true

-- Before the failures of one page are caught.
abbrev Attempt : (n budget most : ℕ) → Result Failure ExtractedPage → Type 0
Attempt n budget most (ok p) = Fits n budget most p
Attempt n budget most (err e) = Unit

truncate_text-count :
    (text : Text) (most : ℕ)
    → ((truncate_text text most).char_count ≤ most)
      × ((truncate_text text most).char_count ≡ length (truncate_text text most).text)
unfolding truncate_text
truncate_text-count text most = elim (Bool-cases (leb (length text) most)) [
  | inl e ↦ rw e (ground (arith, e), refl)
  | inr e ↦ rw e (omega arith, omega (arith, length-take most text, (leb→lt (length text) most e)))
]

store_text-Fits :
    (n : ℕ) (text : Text) (budget most : ℕ) (confidence : Option ℕ) (method : OcrExtractionMethod)
    → Fits n budget most (store_text n method text confidence budget most)
unfolding store_text
store_text-Fits n text budget most confidence method = elim (Bool-cases (is_empty text)) [
  | inl e ↦ rw e (refl, omega arith, omega arith, refl)
  | inr e ↦ elim (Bool-cases (budget == 0)) [
    | inl f ↦ rw (e, f) (refl, omega arith, omega arith, refl)
    | inr f ↦
        let (bounded, counted) = truncate_text-count text (min most budget) in
        rw (e, f) (refl, omega arith, omega arith, counted)
  ]
]

module _ (config : ExtractionConfig) (tools : ExtractionTools) (input : ExtractionInput) where
  settle-PageOutcome :
      (n budget most : ℕ) (e : Failure) → PageOutcome n budget most (settle config tools n e)
  unfolding settle page_failure
  settle-PageOutcome n budget most (processing e) = elim (Bool-cases e.command_not_found) [
    | inl k ↦ rw (settle, page_failure, k) k
    | inr k ↦ rw (settle, page_failure, k) (refl, omega arith, omega arith, refl)
  ]
  settle-PageOutcome n budget most storage_failure = refl
  settle-PageOutcome n budget most unexpected = refl

  pub ocr_page-PageOutcome :
      (n budget : ℕ) (image : Image)
      → PageOutcome n budget config.max_text_per_page (ocr_page config tools input n image budget)
  unfolding ocr_page
  ocr_page-PageOutcome n budget image =
      elim (Result-cases (
        tools.recognize image input.language
          (page_budget config tools input.deadline (tools.clock (Moment.page_recognition n))))) [
            | inl (r, e) ↦
                rw (ocr_page, e)
                  (store_text-Fits n (normalize_extracted_text tools.nfc r.text) budget
                    config.max_text_per_page r.confidence OcrExtractionMethod.ocr)
            | inr (x, e) ↦ rw (ocr_page, e) (settle-PageOutcome n budget config.max_text_per_page x)
          ]

  weaken :
      (n budget most : ℕ) (r : Result Failure ExtractedPage)
      → PageOutcome n budget most r
      → Attempt n budget most r
  weaken n budget most (ok p) h = h
  weaken n budget most (err e) h = tt

  render_and_ocr-Attempt :
      (pdf : PdfInfo) (n budget : ℕ)
      → Attempt n budget config.max_text_per_page (render_and_ocr config tools input pdf n budget)
  unfolding render_and_ocr
  render_and_ocr-Attempt pdf n budget = elim (Result-cases (render_dpi_for config tools pdf n)) [
    | inr (x, e) ↦ rw (render_and_ocr, e) tt
    | inl (dpi, e) ↦
        elim (Result-cases (
          tools.render_page n dpi
            (page_budget config tools input.deadline (tools.clock (Moment.page_render n))))) [
              | inr (x, f) ↦ rw (render_and_ocr, e, f) tt
              | inl (u, f) ↦
                  rw (render_and_ocr, e, f)
                    (weaken n budget config.max_text_per_page
                      (ocr_page config tools input n (Image.rendered n) budget)
                      (ocr_page-PageOutcome n budget (Image.rendered n)))
            ]
  ]

  caught :
      (n budget : ℕ) (r : Result Failure ExtractedPage)
      → Attempt n budget config.max_text_per_page r
      → PageOutcome n budget config.max_text_per_page
          (elim r [ err e ↦ settle config tools n e | ok p ↦ ok p ])
  caught n budget (ok p) h = h
  caught n budget (err e) h = settle-PageOutcome n budget config.max_text_per_page e

  pub extract_page-PageOutcome :
      (pdf : PdfInfo) (native_pages : List Text) (n budget : ℕ)
      → PageOutcome n budget config.max_text_per_page
          (extract_page config tools input pdf native_pages n budget)
  unfolding extract_page
  extract_page-PageOutcome pdf native_pages n budget =
      let native =
        normalize_extracted_text tools.nfc (get_or_else (get_elem? native_pages (n - 1)) []) in
      elim (Bool-cases (leb input.deadline (tools.clock (Moment.page_start n)))) [
        | inl e ↦ rw e (refl, omega arith, omega arith, refl)
        | inr e ↦
            elim (Bool-cases
              (is_native_text_usable tools.is_alphanumeric native config.native_text)) [
                | inl f ↦
                    rw (e, f)
                      (store_text-Fits n native budget config.max_text_per_page none
                        OcrExtractionMethod.native_text)
                | inr f ↦
                    rw (e, f)
                      (caught n budget (render_and_ocr config tools input pdf n budget)
                        (render_and_ocr-Attempt pdf n budget))
              ]
      ]
