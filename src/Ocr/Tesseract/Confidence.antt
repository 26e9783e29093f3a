-- ===== src/Ocr/Tesseract/Confidence.antt =====
-- The confidence of a recognition (backend/src/ocr/providers/tesseract-ocr.provider.ts).
use native.Mathlib.Nat.{mul-le-mul_right, div-mul-le_self}
use docuai.Base.{
  ◌↔◌, ℕ, ◌+◌, ◌*◌, ◌/◌, ◌≤◌, ◌<◌, ◌≡◌, refl, Option, none, some, List, [], ◌∷◌, Text, arith,
  length, get_or_else, split, drop, Bool-cases, inl, inr, ◌==◌,
}
use native.Mathlib.Decide.{dec_lt}
use docuai.Ocr.Tesseract.{mean_of, word_confidence, sum_words, parse_tsv_confidence}

mean-le :
    (sum count : ℕ)
    → sum ≤ count * 100000000
    → 0 < count
    → (sum * 2 + count * 10000) / (count * 20000) ≤ 10000
mean-le sum count h positive =
    let q = (sum * 2 + count * 10000) / (count * 20000) in
    let k : q * (count * 20000) ≤ sum * 2 + count * 10000 =
      div-mul-le_self (sum * 2 + count * 10000) (count * 20000) in
    elim (dec_lt 10000 q) [
      | yes l ↦ absurd (
          let m : 10001 * (count * 20000) ≤ q * (count * 20000) =
            mul-le-mul_right (count * 20000) (omega arith) in
          omega arith)
      | no l ↦ omega arith
    ]

bounded :
    (sum count most : ℕ)
    → sum ≤ count * 100000000
    → count ≤ most
    → let (confidence, words) = mean_of sum count in
      ((c : ℕ) → confidence ≡ some c → c ≤ 10000)
      × ((confidence ≡ none) ↔ (words ≡ 0))
      × (words ≤ most)
unfolding mean_of
bounded sum count most fits few = elim (Bool-cases (count == 0)) [
  | inl e ↦ rw e (λ c f. absurd (cc), (λ f. refl, λ f. refl), omega arith)
  | inr e ↦ rw e (
    λ c f.
        let same : (sum * 2 + count * 10000) / (count * 20000) ≡ c = cc in
        rw (← same) (mean-le sum count fits (ground (arith, e))),
    (λ f. absurd (cc), λ f. absurd (ground (arith, e))),
    few,
  )
]

module _ (parse_float : Text → Option ℕ) where
  word_confidence-le :
      (line : Text) (c : ℕ) → word_confidence parse_float line ≡ some c → c ≤ 100000000
  unfolding word_confidence
  word_confidence-le line c e = ground arith

  abbrev counted : (count : ℕ) → Option ℕ → ℕ
  counted count w = elim w [ none ↦ count | some c ↦ count + 1 ]

  counted-le :
      (sum count : ℕ) (w : Option ℕ)
      → ((c : ℕ) → w ≡ some c → c ≤ 100000000)
      → sum ≤ count * 100000000
      → (sum + get_or_else w 0 ≤ counted count w * 100000000) × (counted count w ≤ count + 1)
  counted-le sum count none bound h = omega arith
  counted-le sum count (some c) bound h = let k = bound c refl in omega arith

  sum_words-le :
      (sum count : ℕ) (lines : List Text)
      → sum ≤ count * 100000000
      → let (s, n) = sum_words parse_float sum count lines in
        (s ≤ n * 100000000) × (n ≤ count + length lines)
  unfolding sum_words
  sum_words-le sum count [] h = (h, omega arith)
  sum_words-le sum count (line ∷ lines) h =
      let w = word_confidence parse_float line in
      let (fits, step) = counted-le sum count w (word_confidence-le line) h in
      let (a, b) = sum_words-le (sum + get_or_else w 0) (counted count w) lines fits in
      (a, omega arith)

  -- The confidence of a page is at most 100, there is none exactly when no word was recognised, and no
  -- more words are counted than the table has lines.
  pub parse_tsv_confidence_bounds :
      (tsv : Text)
      → let (confidence, words) = parse_tsv_confidence parse_float tsv in
        ((c : ℕ) → confidence ≡ some c → c ≤ 10000)
        × ((confidence ≡ none) ↔ (words ≡ 0))
        × (words ≤ length (drop 1 (split 10 tsv)))
  unfolding parse_tsv_confidence
  parse_tsv_confidence_bounds tsv =
      let (fits, few) = sum_words-le 0 0 (drop 1 (split 10 tsv)) (omega arith) in
      bounded (sum_words parse_float 0 0 (drop 1 (split 10 tsv))).0
        (sum_words parse_float 0 0 (drop 1 (split 10 tsv))).1 (length (drop 1 (split 10 tsv))) fits
        (omega arith)
