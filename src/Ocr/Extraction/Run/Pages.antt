-- ===== src/Ocr/Extraction/Run/Pages.antt =====
-- The pages that the extraction yields for a file that was inspected
-- (backend/src/ocr/ocr-extraction.service.ts).
use docuai.Base.{
  sym, subst, ℕ, zero, suc, ◌+◌, ◌-◌, ◌≤◌, ◌≡◌, refl, true, none, some, List, [], ◌∷◌, Text, arith,
  length, get_or_else, Result, ok, err, Bool-cases, Result-cases, inl, inr, All, ltb,
}
use docuai.Ocr.Processing.{Failure, processing, storage_failure, unexpected}
use docuai.Ocr.Extraction.{
  ExtractionConfig, ExtractionTools, ExtractionInput, ExtractedPage, Extracted, PdfInfo, Image,
}
use docuai.Ocr.Extraction.Run.{
  extract_pdf, extract_with_text, ocr_page, extract_page, extract_pages, extract_image,
}
use docuai.Ocr.Extraction.Run.OnePage.{
  aborts, Fits, PageOutcome, extract_page-PageOutcome, ocr_page-PageOutcome,
}

-- The pages have the numbers from `n` on, one by one.
abbrev pub Consecutive : ℕ → List ExtractedPage → Type 0
Consecutive n [] = Unit
Consecutive n (p ∷ ps) = (p.page_number ≡ n) × Consecutive (n + 1) ps

abbrev pub chars : List ExtractedPage → ℕ
chars [] = 0
chars (p ∷ ps) = p.char_count + chars ps

abbrev pub IsCounted : (most : ℕ) → ExtractedPage → Type 0
IsCounted most p = (p.char_count ≤ most) × (p.char_count ≡ length (get_or_else p.text []))

-- What `left` rounds from page `n` on yield.
abbrev pub Yields : (left n budget most : ℕ) → Extracted → Type 0
Yields left n budget most x =
    Consecutive n x.pages
    × (x.failure ≡ none → length x.pages ≡ left)
    × ((e : Failure) → x.failure ≡ some e → aborts e ≡ true)
    × (chars x.pages ≤ budget)
    × All (IsCounted most) x.pages

Yields-cons :
    (left n budget most : ℕ) (p : ExtractedPage) (x : Extracted)
    → Fits n budget most p
    → Yields left (n + 1) (budget - p.char_count) most x
    → Yields (suc left) n budget most (record { pages = p ∷ x.pages; failure = x.failure })
Yields-cons left n budget most p x (numbered, within, limited, counted) (a, b, c, d, e) =
    ((numbered, a), λ f. omega (arith, b f), c, omega arith, ((limited, counted), e))

thrown :
    (left n budget most : ℕ) (e : Failure)
    → aborts e ≡ true
    → Yields left n budget most (record { pages = []; failure = some e })
thrown left n budget most e h =
    (tt, λ f. absurd (cc), λ x f. let same : e ≡ x = cc in rw (← same) h, omega arith, tt)

module _ (config : ExtractionConfig) (tools : ExtractionTools) (input : ExtractionInput) where
  extract_pages-Yields :
      (pdf : PdfInfo) (native_pages : List Text) (left n budget : ℕ)
      → Yields left n budget config.max_text_per_page
          (extract_pages config tools input pdf native_pages left n budget)
  unfolding extract_pages
  extract_pages-Yields pdf native_pages zero n budget =
      (tt, λ f. refl, λ e f. absurd (cc), omega arith, tt)
  extract_pages-Yields pdf native_pages (suc left) n budget =
      let outcome = extract_page-PageOutcome config tools input pdf native_pages n budget in
      elim (Result-cases (extract_page config tools input pdf native_pages n budget)) [
        | inr (e, f) ↦
            rw (extract_pages, f)
              (thrown (suc left) n budget config.max_text_per_page e
                (rw (PageOutcome, f) at outcome))
        | inl (p, f) ↦
            rw (extract_pages, f)
              (Yields-cons left n budget config.max_text_per_page p
                (extract_pages config tools input pdf native_pages left (n + 1)
                  (budget - p.char_count))
                (rw (PageOutcome, f) at outcome)
                (extract_pages-Yields pdf native_pages left (n + 1) (budget - p.char_count)))
      ]

  extract_with_text-Yields :
      (pdf : PdfInfo) (text : Result Failure (List Text))
      → Yields
          (pdf.page_count + 1 - input.start_page)
          input.start_page
          input.char_budget
          config.max_text_per_page
          (extract_with_text config tools input pdf text)
  unfolding extract_with_text
  extract_with_text-Yields pdf (ok native_pages) =
      extract_pages-Yields pdf native_pages (pdf.page_count + 1 - input.start_page) input.start_page
        input.char_budget
  extract_with_text-Yields pdf (err (processing e)) =
      extract_pages-Yields pdf [] (pdf.page_count + 1 - input.start_page) input.start_page
        input.char_budget
  extract_with_text-Yields pdf (err storage_failure) =
      thrown (pdf.page_count + 1 - input.start_page) input.start_page input.char_budget
        config.max_text_per_page storage_failure refl
  extract_with_text-Yields pdf (err unexpected) =
      thrown (pdf.page_count + 1 - input.start_page) input.start_page input.char_budget
        config.max_text_per_page unexpected refl

  -- The only page of an image.
  single :
      (r : Result Failure ExtractedPage)
      → PageOutcome 1 input.char_budget config.max_text_per_page r
      → Yields 1 1 input.char_budget config.max_text_per_page (elim r [
        | err e ↦ record { pages = []; failure = some e }
        | ok p ↦ record { pages = p ∷ []; failure = none }
      ])
  single (err e) h = thrown 1 1 input.char_budget config.max_text_per_page e h
  single (ok p) h =
      Yields-cons 0 1 input.char_budget config.max_text_per_page p
        (record { pages = []; failure = none }) h
        (tt, λ f. refl, λ e f. absurd (cc), omega arith, tt)

  pub extract_image-Yields :
      1 ≤ input.start_page
      → Yields
          (2 - input.start_page)
          input.start_page
          input.char_budget
          config.max_text_per_page
          (extract_image config tools input)
  unfolding extract_image
  extract_image-Yields h = elim (Bool-cases (ltb 1 input.start_page)) [
    | inl e ↦ rw e (tt, λ f. ground (arith, e), λ x f. absurd (cc), omega arith, tt)
    | inr e ↦
        let one : input.start_page ≡ 1 = ground (arith, e) in
        rw e (
          subst
            (λ n.
              Yields (2 - n) n input.char_budget config.max_text_per_page
                (elim (ocr_page config tools input 1 Image.stored_file input.char_budget) [
                  | err e ↦ record { pages = []; failure = some e }
                  | ok p ↦ record { pages = p ∷ []; failure = none }
                ]))
            (sym one)
            (single (ocr_page config tools input 1 Image.stored_file input.char_budget)
              (ocr_page-PageOutcome config tools input 1 input.char_budget Image.stored_file)))
  ]

  pub extract_pdf-Yields :
      (pdf : PdfInfo)
      → Yields
          (pdf.page_count + 1 - input.start_page)
          input.start_page
          input.char_budget
          config.max_text_per_page
          (extract_pdf config tools input pdf)
  unfolding extract_pdf
  extract_pdf-Yields pdf = extract_with_text-Yields pdf _
