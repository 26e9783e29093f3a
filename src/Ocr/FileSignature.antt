-- ===== src/Ocr/FileSignature.antt =====
-- backend/src/ocr/tools/file-signature.ts: the format of a file and the size of an image, from the
-- first bytes. `head[i]` out of range is `undefined`, here `none`, and fails every comparison; a
-- `readUInt…` out of range throws, here `none` too, and the outer `Option` of a reader is `none` if
-- it throws (or if the loop of `jpegDimensions` ran out of its rounds).
pub mod Reads
mod Tests
use docuai.Base.{
  ℕ, zero, suc, ◌+◌, ◌-◌, ◌*◌, ◌/◌, ◌%◌, ◌^◌, Bool, true, false, not, ◌&&◌, ◌||◌, Option, none,
  some, List, [], ◌∷◌, ltb, leb, ◌==◌, if◌then◌else◌, length, get_elem?, take, drop,
}

pub data DetectedFormat : Type 0 where
  pdf jpeg png webp : DetectedFormat

pub record ImageDimensions : Type 0 where
  pub width : ℕ
  pub height : ℕ

abbrev pub Bytes : Type 0
Bytes = List ℕ

-- `head.subarray(from, to)`
abbrev pub subarray : (from to : ℕ) → Bytes → Bytes
subarray from to head = take (to - from) (drop from head)

-- `a.equals(b)`, and `===` of two latin1 strings
abbrev pub same_bytes : Bytes → Bytes → Bool
same_bytes [] [] = true
same_bytes (a ∷ xs) (b ∷ ys) = a == b && same_bytes xs ys
same_bytes _ _ = false

abbrev pub pdf_signature : Bytes
pdf_signature = b'%' ∷ b'P' ∷ b'D' ∷ b'F' ∷ b'-' ∷ []

abbrev pub png_signature : Bytes
png_signature = 0x89 ∷ 0x50 ∷ 0x4e ∷ 0x47 ∷ 0x0d ∷ 0x0a ∷ 0x1a ∷ 0x0a ∷ []

abbrev pub riff : Bytes
riff = b'R' ∷ b'I' ∷ b'F' ∷ b'F' ∷ []

abbrev pub webp_tag : Bytes
webp_tag = b'W' ∷ b'E' ∷ b'B' ∷ b'P' ∷ []

-- `head[i] === b`
abbrev pub is_byte : Option ℕ → ℕ → Bool
is_byte none b = false
is_byte (some a) b = a == b

-- `lo <= head[i] && head[i] <= hi`
abbrev pub in_range : Option ℕ → (lo hi : ℕ) → Bool
in_range none lo hi = false
in_range (some a) lo hi = leb lo a && leb a hi

unfoldable pub detect_format : Bytes → Option DetectedFormat
detect_format head =
    if leb 5 (length head) && same_bytes (subarray 0 5 head) pdf_signature
    then some pdf
    else if leb 8 (length head) && same_bytes (subarray 0 8 head) png_signature
    then some png
    else if leb 3 (length head)
        && is_byte (get_elem? head 0) 0xff
        && is_byte (get_elem? head 1) 0xd8
        && is_byte (get_elem? head 2) 0xff
    then some jpeg
    else if leb 12 (length head)
        && same_bytes (subarray 0 4 head) riff
        && same_bytes (subarray 8 12 head) webp_tag
    then some webp
    else none

-- A read that may throw, and what follows it.
infixl 5 ◌>>=◌
abbrev pub ◌>>=◌ {ℓ κ} : {A : Type ℓ} {B : Type κ} → Option A → (A → Option B) → Option B
none >>= f = none
some a >>= f = f a

-- `readUInt16BE`, `readUInt16LE`, `readUIntLE(·, 3)`, `readUInt32BE`, `readUInt32LE`
unfoldable pub read_u16_be : Bytes → ℕ → Option ℕ
read_u16_be head i = do a ← get_elem? head i; b ← get_elem? head (i + 1); some (a * 256 + b)

unfoldable pub read_u16_le : Bytes → ℕ → Option ℕ
read_u16_le head i = do a ← get_elem? head i; b ← get_elem? head (i + 1); some (b * 256 + a)

unfoldable pub read_u24_le : Bytes → ℕ → Option ℕ
read_u24_le head i = do a ← get_elem? head i; b ← read_u16_le head (i + 1); some (b * 256 + a)

unfoldable pub read_u32_be : Bytes → ℕ → Option ℕ
read_u32_be head i = do a ← read_u16_be head i; b ← read_u16_be head (i + 2); some (a * 2 ^ 16 + b)

unfoldable pub read_u32_le : Bytes → ℕ → Option ℕ
read_u32_le head i = do a ← read_u16_le head i; b ← read_u16_le head (i + 2); some (b * 2 ^ 16 + a)

pub valid : (width height : ℕ) → Option ImageDimensions
valid width height =
    if ltb 0 width && ltb 0 height then some (record { width = width; height = height }) else none

abbrev ihdr : Bytes
ihdr = b'I' ∷ b'H' ∷ b'D' ∷ b'R' ∷ []

pub png_dimensions : Bytes → Option (Option ImageDimensions)
png_dimensions head =
    if ltb (length head) 24 || not (same_bytes (subarray 12 16 head) ihdr)
    then some none
    else (do width ← read_u32_be head 16; height ← read_u32_be head 20; some (valid width height))

-- Markers with no length field, and the frame headers that hold the size.
abbrev pub is_standalone : Option ℕ → Bool
is_standalone marker = is_byte marker 0xd8 || in_range marker 0xd0 0xd7 || is_byte marker 0x01

abbrev pub is_sof : Option ℕ → Bool
is_sof marker =
    in_range marker 0xc0 0xcf
    && not (is_byte marker 0xc4)
    && not (is_byte marker 0xc8)
    && not (is_byte marker 0xcc)

-- The size in a frame header.
abbrev pub frame_size : Bytes → (offset : ℕ) → Option (Option ImageDimensions)
frame_size head offset = do
  height ← read_u16_be head (offset + 5)
  width ← read_u16_be head (offset + 7)
  some (valid width height)

-- The loop of `jpegDimensions`, for that many rounds.
pub jpeg_from : (rounds : ℕ) → Bytes → (offset : ℕ) → Option (Option ImageDimensions)
jpeg_from zero head offset = none
jpeg_from (suc rounds) head offset =
    let marker = get_elem? head (offset + 1) in
    let padded = jpeg_from rounds head (offset + 1) in
    let skipped = jpeg_from rounds head (offset + 2) in
    let segment = read_u16_be head (offset + 2) >>= λ size.
    let next = jpeg_from rounds head (offset + (2 + size)) in
    if ltb size 2 then some none else (if is_sof marker then frame_size head offset else next) in
    if not (leb (offset + 9) (length head))
    then some none
    else if not (is_byte (get_elem? head offset) 0xff)
    then some none
    else if is_byte marker 0xff
    then padded
    else if is_standalone marker
    then skipped
    else if is_byte marker 0xd9 || is_byte marker 0xda
    then some none
    else segment

-- Each round moves the offset, so there are no more rounds than bytes.
pub jpeg_dimensions : Bytes → Option (Option ImageDimensions)
unfolding jpeg_from
jpeg_dimensions head = jpeg_from (length head + 1) head 2

abbrev vp8 : Bytes
vp8 = b'V' ∷ b'P' ∷ b'8' ∷ b' ' ∷ []

abbrev vp8l : Bytes
vp8l = b'V' ∷ b'P' ∷ b'8' ∷ b'L' ∷ []

abbrev vp8x : Bytes
vp8x = b'V' ∷ b'P' ∷ b'8' ∷ b'X' ∷ []

-- `& 0x3fff` and `& 0xffffff` keep the low 14 and 24 bits, `>>> 14` drops the low 14.
pub webp_dimensions : Bytes → Option (Option ImageDimensions)
webp_dimensions head =
    let chunk = subarray 12 16 head in
    if ltb (length head) 30
    then some none
    else if same_bytes chunk vp8
    then (if not (is_byte (get_elem? head 23) 0x9d)
          || not (is_byte (get_elem? head 24) 0x01)
          || not (is_byte (get_elem? head 25) 0x2a)
        then some none
        else (do
          width ← read_u16_le head 26
          height ← read_u16_le head 28
          some (valid (width % 2 ^ 14) (height % 2 ^ 14))))
    else if same_bytes chunk vp8l
    then (if not (is_byte (get_elem? head 20) 0x2f) then some none else (do
      bits ← read_u32_le head 21
      some (valid (bits % 2 ^ 14 + 1) (bits / 2 ^ 14 % 2 ^ 14 + 1))))
    else if same_bytes chunk vp8x
    then (do
      width ← read_u24_le head 24
      height ← read_u24_le head 27
      some (valid (width % 2 ^ 24 + 1) (height % 2 ^ 24 + 1)))
    else some none

-- `format` is no `pdf` in the source; the model answers null there.
pub read_image_dimensions : DetectedFormat → Bytes → Option (Option ImageDimensions)
read_image_dimensions png head = png_dimensions head
read_image_dimensions jpeg head = jpeg_dimensions head
read_image_dimensions webp head = webp_dimensions head
read_image_dimensions pdf head = some none
