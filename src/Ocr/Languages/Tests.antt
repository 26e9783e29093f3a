-- ===== src/Ocr/Languages/Tests.antt =====
-- The theorem on language lists (backend/src/ocr/ocr-languages.service.ts) at a concrete input.
use docuai.Base.{join, some, [], ◌∷◌, ◌≡◌, refl, List, Text, ok, split}
use docuai.Ocr.Languages.{codes_of, is_refused, raw_of, LanguagesConfig, resolve}
use docuai.Ocr.Languages.Canonical.{IsCanonical, resolve-resolve}

abbrev eng : Text
eng = b'e' ∷ b'n' ∷ b'g' ∷ []

abbrev ind : Text
ind = b'i' ∷ b'n' ∷ b'd' ∷ []

abbrev config : LanguagesConfig
config = record {
  default_language = eng;
  supported_languages = eng ∷ ind ∷ [];
  max_languages_per_job = 2;
}

abbrev offered : List Text
offered = eng ∷ ind ∷ []

-- ` ind + eng+ind`
abbrev asked : Text
asked =
    32 ∷ b'i' ∷ b'n' ∷ b'd' ∷ 32 ∷ b'+' ∷ 32 ∷ b'e' ∷ b'n' ∷ b'g' ∷ b'+' ∷ b'i' ∷ b'n' ∷ b'd' ∷ []

abbrev found : Text
found = b'i' ∷ b'n' ∷ b'd' ∷ b'+' ∷ b'e' ∷ b'n' ∷ b'g' ∷ []

resolve_run : resolve config offered (some asked) ≡ ok found
unfolding resolve is_refused codes_of raw_of join
resolve_run = refl

resolve-resolve_example :
    IsCanonical config offered (split b'+' found) × (resolve config offered (some found) ≡ ok found)
resolve-resolve_example = resolve-resolve config offered (some asked) found resolve_run
