-- ===== src/Ocr/PageText/Ends.antt =====
-- The ends of the lines that normalizeExtractedText (backend/src/ocr/tools/text.ts) leaves.
use docuai.Base.{
  true, ap, ◌∙◌, leb, Lacks-drop_end, sym, Lacks-split, ℕ, ◌+◌, ◌≡◌, refl, Bool, false, ◌&&◌, [],
  ◌∷◌, ◌++◌, Text, arith, ◌==◌, All, split, join, map, drop_end, drop_while, trim, is_space,
  Bool-cases, Nil-cases, inl, inr, List, Lacks,
}
use docuai.Ocr.PageText.{is_blank, collapse_lines, strip_lines}

abbrev starts_line_end : Text → Bool
starts_line_end [] = false
starts_line_end (c ∷ s) = c == 10

-- No blank stands right before a line end.
abbrev pub LinesEnd : Text → Type 0
LinesEnd [] = Unit
LinesEnd (c ∷ s) = ((is_blank c && starts_line_end s) ≡ false) × LinesEnd s

-- The last unit passes the test.
abbrev ends_with : (ℕ → Bool) → Text → Bool
ends_with p [] = false
ends_with p (c ∷ []) = p c
ends_with p (c ∷ d ∷ s) = ends_with p (d ∷ s)

ends_with-drop_end : (p : ℕ → Bool) (s : Text) → ends_with p (drop_end p s) ≡ false
unfolding drop_end
ends_with-drop_end p [] = refl
ends_with-drop_end p (c ∷ s) =
    let rest = ends_with-drop_end p s in
    elim (Nil-cases (drop_end p s)) [
      | inl e ↦ elim (Bool-cases (p c)) [ inl k ↦ rw (e, k) refl | inr k ↦ rw (e, k) k ]
      | inr (d, t, e) ↦ rw e (rw e at rest)
    ]

pub ends_with-last : (p : ℕ → Bool) (s : Text) (c : ℕ) → ends_with p (s ++ c ∷ []) ≡ p c
ends_with-last p [] c = refl
ends_with-last p (d ∷ []) c = refl
ends_with-last p (d ∷ e ∷ s) c = ends_with-last p (e ∷ s) c

starts-drop_end :
    (p : ℕ → Bool) (s : Text) → starts_line_end s ≡ false → starts_line_end (drop_end p s) ≡ false
unfolding drop_end
starts-drop_end p [] h = refl
starts-drop_end p (c ∷ s) h = elim (Nil-cases (drop_end p s)) [
  | inl e ↦ elim (Bool-cases (p c)) [ inl k ↦ rw (e, k) refl | inr k ↦ rw (e, k) h ]
  | inr (d, t, e) ↦ rw e h
]

and_with_false : (a : Bool) → (a && false) ≡ false
and_with_false true = refl
and_with_false false = refl

and_false : (a b b' : Bool) → (a && b) ≡ false → (b ≡ false → b' ≡ false) → (a && b') ≡ false
and_false true b b' h k = k h
and_false false b b' h k = refl

drop_end-LinesEnd : (p : ℕ → Bool) (s : Text) → LinesEnd s → LinesEnd (drop_end p s)
unfolding drop_end
drop_end-LinesEnd p [] h = tt
drop_end-LinesEnd p (c ∷ s) h =
    let rest = drop_end-LinesEnd p s (h.1) in
    let first : (is_blank c && starts_line_end (drop_end p s)) ≡ false =
      and_false (is_blank c) (starts_line_end s) (starts_line_end (drop_end p s)) (h.0)
        (starts-drop_end p s) in
    elim (Nil-cases (drop_end p s)) [
      | inl e ↦ elim (Bool-cases (p c)) [
        | inl k ↦ rw (e, k) tt
        | inr k ↦ rw (e, k) (and_with_false (is_blank c), tt)
      ]
      | inr (d, t, e) ↦ rw e (rw e at first, rw e at rest)
    ]

drop_while-LinesEnd : (p : ℕ → Bool) (s : Text) → LinesEnd s → LinesEnd (drop_while p s)
unfolding drop_while
drop_while-LinesEnd p [] h = tt
drop_while-LinesEnd p (c ∷ s) h = elim (Bool-cases (p c)) [
  | inl e ↦ rw e (drop_while-LinesEnd p s (h.1))
  | inr e ↦ rw e h
]

pub trim-LinesEnd : (s : Text) → LinesEnd s → LinesEnd (trim s)
unfolding trim
trim-LinesEnd s h =
    drop_end-LinesEnd is_space (drop_while is_space s) (drop_while-LinesEnd is_space s h)

starts-collapse_lines : (s : Text) → starts_line_end (collapse_lines 0 s) ≡ starts_line_end s
unfolding collapse_lines
starts-collapse_lines [] = refl
starts-collapse_lines (c ∷ s) = ground arith

pub collapse_lines-LinesEnd : (n : ℕ) (s : Text) → LinesEnd s → LinesEnd (collapse_lines n s)
unfolding collapse_lines
collapse_lines-LinesEnd n [] h = tt
collapse_lines-LinesEnd n (c ∷ s) h = elim (Bool-cases (c == 10)) [
  | inr e ↦ rw e (rw (starts-collapse_lines s) (h.0), collapse_lines-LinesEnd 0 s (h.1))
  | inl e ↦ elim (Bool-cases (leb 2 n)) [
    | inl f ↦ rw (e, f) (collapse_lines-LinesEnd (n + 1) s (h.1))
    | inr f ↦ rw (e, f) (ground (arith, e), collapse_lines-LinesEnd (n + 1) s (h.1))
  ]
]

-- A line that does not end with a blank, before the others.
line-LinesEnd :
    (t s : Text) → Lacks 10 t → ends_with is_blank t ≡ false → LinesEnd s → LinesEnd (t ++ 10 ∷ s)
line-LinesEnd [] s l e h = (refl, h)
line-LinesEnd (c ∷ []) s l e h = (ground (arith, e), (refl, h))
line-LinesEnd (c ∷ d ∷ t) s l e h = (ground (arith, l.1.0), line-LinesEnd (d ∷ t) s l.1 e h)

single-LinesEnd : (t : Text) → Lacks 10 t → LinesEnd t
single-LinesEnd [] l = tt
single-LinesEnd (c ∷ []) l = (ground arith, tt)
single-LinesEnd (c ∷ d ∷ t) l = (ground (arith, l.1.0), single-LinesEnd (d ∷ t) l.1)

lines-LinesEnd :
    (ts : List Text) → All (Lacks 10) ts → LinesEnd (join 10 (map (drop_end is_blank) ts))
unfolding join
lines-LinesEnd [] l = tt
lines-LinesEnd (t ∷ []) l =
    single-LinesEnd (drop_end is_blank t) (Lacks-drop_end 10 is_blank t (l.0))
lines-LinesEnd (t ∷ u ∷ ts) l =
    line-LinesEnd (drop_end is_blank t) _ (Lacks-drop_end 10 is_blank t (l.0))
      (ends_with-drop_end is_blank t) (lines-LinesEnd (u ∷ ts) (l.1))

pub strip_lines-LinesEnd : (s : Text) → LinesEnd (strip_lines s)
unfolding strip_lines
strip_lines-LinesEnd s = lines-LinesEnd (split 10 s) (Lacks-split 10 s)

-- The first unit of a trimmed text, and the last one, are no white space.
first-drop_while : (p : ℕ → Bool) (s t : Text) (c : ℕ) → drop_while p s ≡ c ∷ t → p c ≡ false
unfolding drop_while
first-drop_while p [] t c e = absurd (cc)
first-drop_while p (d ∷ s) t c e = ground (arith, first-drop_while p s t c)

first-drop_end :
    (p q : ℕ → Bool) (s t : Text) (c : ℕ)
    → ((d : ℕ) (r : Text) → s ≡ d ∷ r → q d ≡ false)
    → drop_end p s ≡ c ∷ t
    → q c ≡ false
unfolding drop_end
first-drop_end p q [] t c h e = absurd (cc)
first-drop_end p q (d ∷ s) t c h e =
    let k : q d ≡ false = h d s refl in
    elim (Nil-cases (drop_end p s)) [
      | inl f ↦ ground (arith, k)
      | inr (x, r, f) ↦ ground (arith, k)
    ]

pub trim-first : (s t : Text) (c : ℕ) → trim s ≡ c ∷ t → is_space c ≡ false
unfolding trim
trim-first s t c e =
    first-drop_end is_space is_space (drop_while is_space s) t c
      (λ d r f. first-drop_while is_space s r d f) e

pub trim-last : (s t : Text) (c : ℕ) → trim s ≡ t ++ c ∷ [] → is_space c ≡ false
unfolding trim
trim-last s t c e =
    sym (ends_with-last is_space t c)
    ∙ ap (ends_with is_space) (sym e)
    ∙ ends_with-drop_end is_space (drop_while is_space s)

-- A blank right before a line end is nowhere.
pub LinesEnd-blank : (a b : Text) (c : ℕ) → LinesEnd (a ++ c ∷ 10 ∷ b) → is_blank c ≡ false
LinesEnd-blank [] b c h = ground (arith, h.0)
LinesEnd-blank (d ∷ a) b c h = LinesEnd-blank a b c (h.1)
