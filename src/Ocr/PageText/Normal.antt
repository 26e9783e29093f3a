-- ===== src/Ocr/PageText/Normal.antt =====
-- What normalizeExtractedText (backend/src/ocr/tools/text.ts) promises of every text.
use docuai.Base.{
  subst, any-remove_units, any-remove_units_self, remove_units, ◌≢◌, is_space, Nil-cases, leb,
  any-drop_end, any-split, any-join, any-trim, List, ℕ, ◌+◌, ◌<◌, ◌≤◌, ◌≡◌, refl, Bool, true, false,
  [], ◌∷◌, ◌++◌, Text, arith, ◌==◌, any, All, split, map, drop_end, drop_while, trim, Bool-cases,
  inl, inr, if◌then◌else◌,
}
use docuai.Ocr.PageText.Ends.{
  LinesEnd, LinesEnd-blank, trim-LinesEnd, collapse_lines-LinesEnd, strip_lines-LinesEnd,
  trim-first, trim-last,
}
use docuai.Ocr.PageText.{
  is_removed, normalize_extracted_text, line_ends, is_blank, collapse_lines, strip_lines,
}

any-line_ends : (s : Text) (after : Bool) → any (λ c. c == 13) (line_ends after s) ≡ false
unfolding line_ends
any-line_ends [] after = refl
any-line_ends (c ∷ s) after = ground (arith, any-line_ends s (c == 13))

any-collapse_lines :
    (p : ℕ → Bool) (n : ℕ) (s : Text) → any p s ≡ false → any p (collapse_lines n s) ≡ false
unfolding collapse_lines
any-collapse_lines p n [] h = refl
any-collapse_lines p n (c ∷ s) h =
    ground (arith, any-collapse_lines p (if c == 10 then n + 1 else 0) s)

map-drop_end :
    (p q : ℕ → Bool) (ts : List Text)
    → All (λ t. any p t ≡ false) ts
    → All (λ t. any p t ≡ false) (map (drop_end q) ts)
map-drop_end p q [] h = tt
map-drop_end p q (t ∷ ts) h = (any-drop_end p q t h.0, map-drop_end p q ts h.1)

any-strip_lines :
    (p : ℕ → Bool) (s : Text) → p 10 ≡ false → any p s ≡ false → any p (strip_lines s) ≡ false
unfolding strip_lines
any-strip_lines p s k h =
    any-join p 10 (map (drop_end is_blank) (split 10 s)) k
      (map-drop_end p is_blank (split 10 s) (any-split p 10 s h))

-- The steps behind the removal of controls bring no unit but line ends.
any-normalize :
    (p : ℕ → Bool) (s : Text)
    → p 10 ≡ false
    → any p s ≡ false
    → any p (trim (collapse_lines 0 (strip_lines s))) ≡ false
any-normalize p s k h =
    any-trim p (collapse_lines 0 (strip_lines s))
      (any-collapse_lines p 0 (strip_lines s) (any-strip_lines p s k h))

-- At most two line ends in a row, behind `n` of them.
abbrev RunsEnd : ℕ → Text → Type 0
RunsEnd n [] = Unit
RunsEnd n (c ∷ s) = ((c == 10) ≡ true → n < 2) × RunsEnd (if c == 10 then n + 1 else 0) s

RunsEnd-le : (m n : ℕ) (s : Text) → m ≤ n → RunsEnd n s → RunsEnd m s
RunsEnd-le m n [] h r = tt
RunsEnd-le m n (c ∷ s) h r =
    let first : (c == 10) ≡ true → m < 2 = λ k. omega (arith, r.0 k) in
    elim (Bool-cases (c == 10)) [
      | inl e ↦ (first, rw e (RunsEnd-le (m + 1) (n + 1) s (omega arith) (rw e at (r.1))))
      | inr e ↦ (first, rw e (rw e at (r.1)))
    ]

collapse_lines-RunsEnd : (n : ℕ) (s : Text) → RunsEnd n (collapse_lines n s)
unfolding collapse_lines
collapse_lines-RunsEnd n [] = tt
collapse_lines-RunsEnd n (c ∷ s) = elim (Bool-cases (c == 10)) [
  | inr e ↦ rw e (ground (arith, e), rw e (collapse_lines-RunsEnd 0 s))
  | inl e ↦ elim (Bool-cases (leb 2 n)) [
    | inl f ↦
        rw (e, f)
          (RunsEnd-le n (n + 1) (collapse_lines (n + 1) s) (omega arith)
            (collapse_lines-RunsEnd (n + 1) s))
    | inr f ↦ rw (e, f) ((λ k. ground (arith, f)), rw e (collapse_lines-RunsEnd (n + 1) s))
  ]
]

drop_while-RunsEnd : (p : ℕ → Bool) (s : Text) → RunsEnd 0 s → RunsEnd 0 (drop_while p s)
unfolding drop_while
drop_while-RunsEnd p [] r = tt
drop_while-RunsEnd p (c ∷ s) r = elim (Bool-cases (p c)) [
  | inl e ↦
      rw e (
        drop_while-RunsEnd p s (RunsEnd-le 0 (if c == 10 then 0 + 1 else 0) s (ground arith) (r.1)))
  | inr e ↦ rw e r
]

-- Dropping an end keeps what holds of each unit by the ones before it.
drop_end-RunsEnd : (p : ℕ → Bool) (n : ℕ) (s : Text) → RunsEnd n s → RunsEnd n (drop_end p s)
unfolding drop_end
drop_end-RunsEnd p n [] r = tt
drop_end-RunsEnd p n (c ∷ s) r =
    let rest = drop_end-RunsEnd p (if c == 10 then n + 1 else 0) s (r.1) in
    elim (Nil-cases (drop_end p s)) [
      | inl e ↦ elim (Bool-cases (p c)) [ inl k ↦ rw (e, k) tt | inr k ↦ rw (e, k) (r.0, tt) ]
      | inr (d, t, e) ↦ rw e (r.0, rw e at rest)
    ]

trim-RunsEnd : (s : Text) → RunsEnd 0 s → RunsEnd 0 (trim s)
unfolding trim
trim-RunsEnd s r =
    drop_end-RunsEnd is_space 0 (drop_while is_space s) (drop_while-RunsEnd is_space s r)

RunsEnd-runs : (n : ℕ) (a b : Text) → RunsEnd n (a ++ 10 ∷ 10 ∷ 10 ∷ b) → ⊥
RunsEnd-runs n [] b r = absurd (omega (arith, r.0 refl, r.1.0 refl, r.1.1.0 refl))
RunsEnd-runs n (c ∷ a) b r = RunsEnd-runs (if c == 10 then n + 1 else 0) a b (r.1)

-- No control character but tabs and line ends, no carriage return, no blank line beside another one,
-- no blank before a line end, and no white space at the ends.
abbrev pub IsNormal : Text → Type 0
IsNormal text =
    (any is_removed text ≡ false)
    × (any (λ c. c == 13) text ≡ false)
    × ((a b : Text) → text ≢ a ++ 10 ∷ 10 ∷ 10 ∷ b)
    × ((a b : Text) (c : ℕ) → is_blank c ≡ true → text ≢ a ++ c ∷ 10 ∷ b)
    × ((c : ℕ) (t : Text) → text ≡ c ∷ t → is_space c ≡ false)
    × ((c : ℕ) (t : Text) → text ≡ t ++ c ∷ [] → is_space c ≡ false)

-- The text that is stored for a page, whatever the tool printed: it has no control character but
-- tabs and line ends, no carriage return, no blank line beside another one, no blank before a line
-- end, and no white space at its ends.
pub normalize_extracted_text-IsNormal :
    (nfc : Text → Text) (raw : Text) → IsNormal (normalize_extracted_text nfc raw)
unfolding normalize_extracted_text
normalize_extracted_text-IsNormal nfc raw =
    let s = remove_units is_removed (line_ends false (nfc raw)) in
    let lines = collapse_lines 0 (strip_lines s) in
    (
      any-normalize is_removed s refl
          (any-remove_units_self is_removed (line_ends false (nfc raw))),
      any-normalize (λ c. c == 13) s refl
          (any-remove_units (λ c. c == 13) is_removed (line_ends false (nfc raw))
            (any-line_ends (nfc raw) false)),
      λ a b e.
          RunsEnd-runs 0 a b
            (subst (RunsEnd 0) e (trim-RunsEnd lines (collapse_lines-RunsEnd 0 (strip_lines s)))),
      λ a b c blank e. absurd (
          cc (
            LinesEnd-blank a b c (
              subst LinesEnd e (
                trim-LinesEnd lines
                  (collapse_lines-LinesEnd 0 (strip_lines s) (strip_lines-LinesEnd s)))))),
      λ c t e. trim-first lines t c e,
      λ c t e. trim-last lines t c e,
    )
