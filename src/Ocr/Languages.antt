-- ===== src/Ocr/Languages.antt =====
-- backend/src/ocr/ocr-languages.service.ts: the languages that are offered, and the language list of a
-- request. `describe` is what the engine answers, `now` the clock. A refresh that is under way is
-- shared by the calls that wait for it; each of them has its result.
pub mod Codes
pub mod Canonical
mod Tests
use docuai.Base.{
  ℕ, ◌+◌, ◌-◌, Bool, true, false, not, ◌&&◌, ◌||◌, Option, none, some, List, [], ◌∷◌, Text,
  same_text, includes_text, ltb, leb, ◌==◌, if◌then◌else◌, is_empty, get_or_else, length, any, map,
  Result, ok, err, trim, split, join,
}
use docuai.Schema.{OcrErrorCode}
use docuai.Errors.{AppException}
use docuai.Ocr.Requests.{ocr_error}

pub record LanguageAvailability : Type 0 where
  pub available : List Text
  pub missing : List Text
  pub default_available : Bool
  pub default_language : Text
  pub checked_at : ℕ

pub record LanguagesConfig : Type 0 where
  pub default_language : Text
  pub supported_languages : List Text
  pub max_languages_per_job : ℕ

abbrev pub is_lower : ℕ → Bool
is_lower c = leb b'a' c && leb c b'z'

-- The rest of `/^[a-z]{3}(_[a-z]+)?$/` behind the three letters, and behind the underscore.
abbrev pub all_lower : Text → Bool
all_lower [] = true
all_lower (c ∷ s) = is_lower c && all_lower s

abbrev pub is_code_end : Text → Bool
is_code_end [] = true
is_code_end (c ∷ s) = c == b'_' && not (is_empty s) && all_lower s

-- LANGUAGE_CODE
unfoldable pub is_language_code : Text → Bool
is_language_code (a ∷ b ∷ c ∷ s) = is_lower a && is_lower b && is_lower c && is_code_end s
is_language_code _ = false

-- `[...new Set(list)]`
abbrev pub without : Text → List Text → List Text
without t [] = []
without t (u ∷ us) = if same_text t u then without t us else u ∷ without t us

pub unique : List Text → List Text
unique [] = []
unique (t ∷ ts) = t ∷ without t (unique ts)

-- `configured.filter((code) => installed.has(code))`, and its counterpart
pub installed_of : (keep : Bool) → List Text → List Text → List Text
installed_of keep installed [] = []
installed_of keep installed (t ∷ ts) =
    let rest = installed_of keep installed ts in
    if includes_text installed t
    then if keep then t ∷ rest else rest
    else if keep
    then rest
    else t ∷ rest

abbrev pub all_included : List Text → List Text → Bool
all_included available [] = true
all_included available (t ∷ ts) = includes_text available t && all_included available ts

module _ (config : LanguagesConfig) where
  pub probe : (describe : Option (List Text)) (now : ℕ) → LanguageAvailability
  unfolding installed_of
  probe describe now =
      let installed = get_or_else describe [] in
      let available = installed_of true installed config.supported_languages in
      record {
        available = available;
        missing = installed_of false installed config.supported_languages;
        default_available = all_included available (split b'+' config.default_language);
        default_language = config.default_language;
        checked_at = now;
      }

  -- The answer, and the cache after it; REFRESH_MS is a minute.
  pub availability :
      (force : Bool) (describe : Option (List Text)) (now : ℕ)
      → Option LanguageAvailability
      → LanguageAvailability × Option LanguageAvailability
  availability force describe now cache =
      let fresh = probe describe now in
      elim cache [
        | none ↦ (fresh, some fresh)
        | some c ↦
            if not force && ltb (now - c.checked_at) 60000 then (c, some c) else (fresh, some fresh)
      ]

  -- `(requested ?? '').trim() || this.config.defaultLanguage`
  pub raw_of : Option Text → Text
  raw_of requested =
      let given = trim (get_or_else requested []) in
      if is_empty given then config.default_language else given

  pub codes_of : Text → List Text
  unfolding unique split trim
  codes_of raw = unique (map trim (split b'+' raw))

  -- The tests of `resolve` on the codes.
  pub is_refused : List Text → List Text → Bool
  unfolding is_language_code
  is_refused available codes =
      length codes == 0
      || ltb config.max_languages_per_job (length codes)
      || any (λ code. not (is_language_code code) || not (includes_text available code)) codes

  -- `resolve`, for the languages that `availability` answers.
  pub resolve : (available : List Text) → Option Text → Result AppException Text
  resolve available requested =
      let codes = codes_of (raw_of requested) in
      if is_empty available
      then err (ocr_error 503 OcrErrorCode.ocr_unavailable)
      else if is_refused available codes
      then err (ocr_error 400 OcrErrorCode.ocr_unsupported_language)
      else ok (join b'+' codes)
