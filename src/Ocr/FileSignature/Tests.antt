-- ===== src/Ocr/FileSignature/Tests.antt =====
-- Runs of the format detection, and its theorem at a concrete input.
use docuai.Base.{◌≡◌, refl, true, some, [], ◌∷◌}
use docuai.Ocr.FileSignature.{
  Bytes, detect_format, jpeg, jpeg_dimensions, read_image_dimensions, read_u16_be, valid,
}
use docuai.Ocr.FileSignature.Reads.{is_answer, read_image_dimensions_answer}

-- SOI, a padded APP0 segment of two bytes, and a frame header of 3 rows and 5 columns.
abbrev photo : Bytes
photo =
    0xff ∷ 0xd8 ∷ 0xff ∷ 0xff ∷ 0xe0 ∷ 0 ∷ 2 ∷ 0xff ∷ 0xc0 ∷ 0 ∷ 17 ∷ 8 ∷ 0 ∷ 3 ∷ 0 ∷ 5 ∷ 0 ∷ 0 ∷ []

photo_format : detect_format photo ≡ some jpeg
unfolding detect_format
photo_format = refl

photo_size : jpeg_dimensions photo ≡ some (some (record { width = 5; height = 3 }))
unfolding jpeg_dimensions read_u16_be valid
photo_size = refl

read_image_dimensions_answer_example : is_answer (read_image_dimensions jpeg photo) ≡ true
read_image_dimensions_answer_example = read_image_dimensions_answer jpeg photo
