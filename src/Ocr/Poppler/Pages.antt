-- ===== src/Ocr/Poppler/Pages.antt =====
-- The text layer of a PDF is read back as pdftotext prints it
-- (backend/src/ocr/tools/poppler.service.ts).
use docuai.Base.{
  zero, suc, ℕ, ◌≡◌, refl, false, some, List, [], ◌∷◌, ◌++◌, Text, All, Lacks, arith, length, split,
  split-append, ok, err, Result-cases, Bool-cases, inl, inr, ap, ◌∙◌,
}
use docuai.Ocr.Commands.{CommandOutcome, ended}
use docuai.Ocr.Poppler.{run_tool, exited_well, fit_pages, extract_text}

-- pdftotext ends each page, the last one too, with a form feed.
abbrev pub printed : List Text → Text
printed [] = []
printed (p ∷ ps) = p ++ 12 ∷ printed ps

abbrev pub ended_with : Text → CommandOutcome
ended_with stdout =
    ended (record { exit_code = some 0; stdout = stdout; stderr = []; timed_out = false })

split-printed :
    (pages : List Text) → All (Lacks 12) pages → split 12 (printed pages) ≡ pages ++ [] ∷ []
unfolding split
split-printed [] h = refl
split-printed (p ∷ ps) h =
    split-append 12 p (printed ps) h.0 ∙ ap (λ x. p ∷ x) (split-printed ps h.1)

fit_pages-append : (pages more : List Text) → fit_pages (length pages) (pages ++ more) ≡ pages
unfolding fit_pages
fit_pages-append [] more = refl
fit_pages-append (p ∷ ps) more = ap (λ x. p ∷ x) (fit_pages-append ps more)

-- The pages that pdftotext prints are read back one by one, the trailing form feed making no page more.
pub extract_text-printed :
    (pages : List Text)
    → All (Lacks 12) pages
    → extract_text (length pages) (ended_with (printed pages)) ≡ ok pages
unfolding extract_text run_tool
extract_text-printed pages h =
    ap (λ x. ok (fit_pages (length pages) x)) (split-printed pages h)
    ∙ ap ok (fit_pages-append pages ([] ∷ []))

length-fit_pages : (n : ℕ) (pages : List Text) → length (fit_pages n pages) ≡ n
unfolding fit_pages
length-fit_pages zero pages = refl
length-fit_pages (suc n) [] = omega (arith, length-fit_pages n [])
length-fit_pages (suc n) (p ∷ ps) = omega (arith, length-fit_pages n ps)

-- Whatever was printed, there is a text for each page and for no other.
pub length-extract_text :
    (n : ℕ) (outcome : CommandOutcome) (pages : List Text)
    → extract_text n outcome ≡ ok pages
    → length pages ≡ n
unfolding extract_text
length-extract_text n outcome pages e = elim (Result-cases (run_tool outcome)) [
  | inr (x, f) ↦ absurd (let g : err x ≡ ok pages = rw (extract_text, f) at e in cc)
  | inl (r, f) ↦ elim (Bool-cases (exited_well r.exit_code)) [
    | inr k ↦ absurd (let g : err _ ≡ ok pages = rw (extract_text, f, k) at e in cc)
    | inl k ↦
        let g : ok (fit_pages n (split 12 r.stdout)) ≡ ok pages = rw (extract_text, f, k) at e in
        let same : fit_pages n (split 12 r.stdout) ≡ pages = cc in
        rw (← same) (length-fit_pages n (split 12 r.stdout))
  ]
]
