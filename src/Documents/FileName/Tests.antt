-- ===== src/Documents/FileName/Tests.antt =====
-- Runs of sanitizeFileName (backend/src/documents/file-name.ts), and its theorem at a concrete input.
use docuai.Documents.FileName.Disposition.{attachment_content_disposition}
use docuai.Documents.FileName.Disposition.Printable.{IsHeaderOf, attachment_content_disposition_lem}
use docuai.Base.{
  ◌≡◌, ◌≤◌, refl, false, some, [], ◌∷◌, Text, any, length, is_empty, drop_while, drop_end, trim,
  after_last, remove_units,
}
use docuai.Documents.FileName.{
  sanitize_file_name, cleaned, suffix_of, extension_of, last_segment, dot_at_start,
  file_name_max_length,
}
use docuai.Documents.FileName.Safe.{is_forbidden, sanitize_file_name_lem}

abbrev same : Text → Text
same s = s

-- `..\a/b?.pdf. `
abbrev given : Text
given =
    b'.' ∷ b'.' ∷ 0x5c ∷ b'a' ∷ b'/' ∷ b'b' ∷ b'?' ∷ b'.' ∷ b'p' ∷ b'd' ∷ b'f' ∷ b'.' ∷ b' ' ∷ []

abbrev expected : Text
expected = b'b' ∷ b'.' ∷ b'p' ∷ b'd' ∷ b'f' ∷ []

sanitized : sanitize_file_name same same given ≡ some expected
unfolding sanitize_file_name cleaned suffix_of extension_of last_segment dot_at_start drop_while
    drop_end trim after_last remove_units
sanitized = refl

sanitize_file_name_lem_example :
    (is_empty expected ≡ false)
    × (length expected ≤ file_name_max_length)
    × (any is_forbidden expected ≡ false)
sanitize_file_name_lem_example =
    sanitize_file_name_lem same same (λ s h. h) given expected sanitized

attachment_content_disposition_lem_example :
    IsHeaderOf expected (attachment_content_disposition expected)
attachment_content_disposition_lem_example = attachment_content_disposition_lem expected
