-- ===== src/Ocr/FileSignature/Reads.antt =====
-- The readers of backend/src/ocr/tools/file-signature.ts stay within the bytes that they are given.
use docuai.Base.{
  ◌&&◌, ltb→le, ◌%◌, ◌/◌, ℕ, zero, suc, ◌+◌, ◌*◌, ◌≤◌, ◌<◌, ◌≡◌, refl, Bool, true, false, Option,
  none, some, arith, length, get_elem?-lt, Bool-cases, ltb, leb, inl, inr,
}
use docuai.Ocr.FileSignature.{
  Bytes, DetectedFormat, png, jpeg, webp, pdf, ImageDimensions, read_u16_be, read_u16_le,
  read_u24_le, read_u32_be, read_u32_le, valid, png_dimensions, jpeg_from, jpeg_dimensions,
  webp_dimensions, read_image_dimensions,
}

-- A read whose bytes all exist does not throw.
read_u16_be-ok :
    (head : Bytes) (i : ℕ) → i + 2 ≤ length head → (n : ℕ) × (read_u16_be head i ≡ some n)
unfolding read_u16_be
read_u16_be-ok head i h =
    let (a, p) = get_elem?-lt head i (omega arith) in
    let (b, q) = get_elem?-lt head (i + 1) (omega arith) in (a * 256 + b, rw (p, q))

read_u16_le-ok :
    (head : Bytes) (i : ℕ) → i + 2 ≤ length head → (n : ℕ) × (read_u16_le head i ≡ some n)
unfolding read_u16_le
read_u16_le-ok head i h =
    let (a, p) = get_elem?-lt head i (omega arith) in
    let (b, q) = get_elem?-lt head (i + 1) (omega arith) in (b * 256 + a, rw (p, q))

read_u24_le-ok :
    (head : Bytes) (i : ℕ) → i + 3 ≤ length head → (n : ℕ) × (read_u24_le head i ≡ some n)
unfolding read_u24_le
read_u24_le-ok head i h =
    let (a, p) = get_elem?-lt head i (omega arith) in
    let (b, q) = read_u16_le-ok head (i + 1) (omega arith) in (b * 256 + a, rw (p, q))

read_u32_be-ok :
    (head : Bytes) (i : ℕ) → i + 4 ≤ length head → (n : ℕ) × (read_u32_be head i ≡ some n)
unfolding read_u32_be
read_u32_be-ok head i h =
    let (a, p) = read_u16_be-ok head i (omega arith) in
    let (b, q) = read_u16_be-ok head (i + 2) (omega arith) in (a * 65536 + b, rw (p, q))

read_u32_le-ok :
    (head : Bytes) (i : ℕ) → i + 4 ≤ length head → (n : ℕ) × (read_u32_le head i ≡ some n)
unfolding read_u32_le
read_u32_le-ok head i h =
    let (a, p) = read_u16_le-ok head i (omega arith) in
    let (b, q) = read_u16_le-ok head (i + 2) (omega arith) in (b * 65536 + a, rw (p, q))

-- A reader that does not throw answers null, or a width and a height of at least 1.
abbrev pub is_answer : Option (Option ImageDimensions) → Bool
is_answer none = false
is_answer (some none) = true
is_answer (some (some d)) = ltb 0 d.width && ltb 0 d.height

valid_answer : (w h : ℕ) → is_answer (some (valid w h)) ≡ true
unfolding valid
valid_answer w h = ground arith

png_dimensions_answer : (head : Bytes) → is_answer (png_dimensions head) ≡ true
unfolding png_dimensions
png_dimensions_answer head = elim (Bool-cases (ltb (length head) 24)) [
  | inl short ↦ rw short
  | inr long ↦
      let (w, p) = read_u32_be-ok head 16 (omega (arith, ltb→le _ _ long)) in
      let (h, q) = read_u32_be-ok head 20 (omega (arith, ltb→le _ _ long)) in
      ground (arith, valid_answer w h)
]

-- With more rounds than bytes left the loop ends by itself.
jpeg_from_answer :
    (rounds : ℕ) (head : Bytes) (offset : ℕ)
    → 0 < rounds
    → length head < rounds + offset
    → is_answer (jpeg_from rounds head offset) ≡ true
unfolding jpeg_from
jpeg_from_answer zero head offset pos h = elim pos [ ]
jpeg_from_answer (suc rounds) head offset pos h =
    elim (Bool-cases (leb (offset + 9) (length head))) [
      | inl long ↦
          let fits : offset + 9 ≤ length head = ground arith in
          let (size, p) = read_u16_be-ok head (offset + 2) (omega arith) in
          let (height, q) = read_u16_be-ok head (offset + 5) (omega arith) in
          let (width, r) = read_u16_be-ok head (offset + 7) (omega arith) in
          ground (
            arith,
            valid_answer width height,
            jpeg_from_answer rounds head (offset + 1) (omega arith) (omega arith),
            jpeg_from_answer rounds head (offset + 2) (omega arith) (omega arith),
            jpeg_from_answer rounds head (offset + (2 + size)) (omega arith) (omega arith),
          )
      | inr short ↦ rw short
    ]

webp_dimensions_answer : (head : Bytes) → is_answer (webp_dimensions head) ≡ true
unfolding webp_dimensions
webp_dimensions_answer head = elim (Bool-cases (ltb (length head) 30)) [
  | inl short ↦ rw short
  | inr long ↦
      let size : 30 ≤ length head = ltb→le _ _ long in
      let (a, p) = read_u16_le-ok head 26 (omega arith) in
      let (b, q) = read_u16_le-ok head 28 (omega arith) in
      let (c, r) = read_u32_le-ok head 21 (omega arith) in
      let (d, s) = read_u24_le-ok head 24 (omega arith) in
      let (e, t) = read_u24_le-ok head 27 (omega arith) in
      ground (
        arith,
        valid_answer (a % 16384) (b % 16384),
        valid_answer (c % 16384 + 1) (c / 16384 % 16384 + 1),
        valid_answer (d % 16777216 + 1) (e % 16777216 + 1),
      )
]

-- Reading the dimensions of an image never reads past the bytes and always ends, whatever the bytes;
-- the answer is null, or a width and a height that are both at least 1.
pub read_image_dimensions_answer :
    (format : DetectedFormat) (head : Bytes) → is_answer (read_image_dimensions format head) ≡ true
unfolding read_image_dimensions jpeg_dimensions
read_image_dimensions_answer png head = png_dimensions_answer head
read_image_dimensions_answer jpeg head =
    jpeg_from_answer (length head + 1) head 2 (omega arith) (omega arith)
read_image_dimensions_answer webp head = webp_dimensions_answer head
read_image_dimensions_answer pdf head = refl
