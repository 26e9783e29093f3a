-- ===== src/Errors/Filter/Tests.antt =====
-- The theorem on the filter (backend/src/common/filters/http-exception.filter.ts) at a concrete input.
use docuai.Base.{◌≡◌, refl, none, some, [], ◌∷◌, Text}
use docuai.Errors.{ErrorCode}
use docuai.Errors.Filter.{Thrown, http, object, texts, resolve, said}
use docuai.Errors.Filter.Disclosure.{Shown, resolve-Shown}

-- What the validation of a request throws.
abbrev invalid : Thrown
invalid =
    http 400 (object (record { message = some (texts ((97 ∷ []) ∷ (98 ∷ []) ∷ [])); code = none }))

abbrev joined : Text
joined = 97 ∷ b';' ∷ b' ' ∷ 98 ∷ []

invalid_code : (resolve invalid).code ≡ ErrorCode.validation_error
unfolding resolve
invalid_code = refl

invalid_message : (resolve invalid).message ≡ said joined
unfolding resolve
invalid_message = refl

resolve-Shown_example : Shown invalid joined
resolve-Shown_example = resolve-Shown invalid joined invalid_message
