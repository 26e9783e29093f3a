-- ===== src/Errors/Filter.antt =====
-- backend/src/common/filters/http-exception.filter.ts: what a client sees of an exception. The request
-- id, which the envelope repeats, and the log are left out.
pub mod Disclosure
mod Tests
use docuai.Base.{
  ℕ, Bool, true, false, not, ◌&&◌, Option, none, some, List, [], ◌∷◌, ◌++◌, Text, leb, ◌==◌,
  if◌then◌else◌, is_empty,
}
use docuai.Errors.{AppException, ErrorCode}

-- The message in the body of an exception: a text, the list of the validation, or something else.
pub data BodyMessage : Type 0 where
  text : Text → BodyMessage
  texts : List Text → BodyMessage
  other_value : BodyMessage

pub record NestErrorBody : Type 0 where
  pub message : Option BodyMessage
  pub code : Option Text

pub data ResponseBody : Type 0 where
  plain : Text → ResponseBody
  object : NestErrorBody → ResponseBody

-- An exception of the services, one of the framework, or any other value that was thrown.
pub data Thrown : Type 0 where
  app : AppException → (message : Text) → Thrown
  http : (status : ℕ) → ResponseBody → Thrown
  unknown : Thrown

-- A fixed message of the filter, or one that the exception brought.
pub data Message : Type 0 where
  internal_server_error too_many_requests request_failed : Message
  said : Text → Message

pub record Resolved : Type 0 where
  pub status : ℕ
  pub code : ErrorCode
  pub message : Message

abbrev status_to_code : ℕ → ErrorCode
status_to_code status =
    if status == 400
    then ErrorCode.bad_request
    else if status == 401
    then ErrorCode.unauthorized
    else if status == 403
    then ErrorCode.forbidden
    else if status == 404
    then ErrorCode.not_found
    else if status == 405
    then ErrorCode.method_not_allowed
    else if status == 409
    then ErrorCode.conflict
    else if status == 413
    then ErrorCode.payload_too_large
    else if status == 415
    then ErrorCode.unsupported_media_type
    else if status == 429
    then ErrorCode.rate_limited
    else if status == 503
    then ErrorCode.service_unavailable
    else ErrorCode.internal_error

pub is_validation_body : ResponseBody → Bool
is_validation_body (plain s) = false
is_validation_body (object b) = elim b.message [
  | some (texts ms) ↦ true
  | some (text m) ↦ false
  | some other_value ↦ false
  | none ↦ false
]

-- The code in a body, unless it is empty.
code_in : ResponseBody → Option Text
code_in (plain s) = none
code_in (object b) = elim b.code [ none ↦ none | some c ↦ if is_empty c then none else some c ]

code_of : Option Text → (status : ℕ) → ErrorCode
code_of none status = status_to_code status
code_of (some c) status = ErrorCode.custom c

pub code_for_http_exception : (status : ℕ) → ResponseBody → ErrorCode
unfolding is_validation_body code_in code_of
code_for_http_exception status body =
    if status == 429
    then ErrorCode.rate_limited
    else if status == 400 && is_validation_body body
    then ErrorCode.validation_error
    else code_of (code_in body) status

-- `message.join('; ')`
pub join_messages : List Text → Text
join_messages [] = []
join_messages (m ∷ ms) = elim ms [ [] ↦ m | _ ∷ _ ↦ m ++ b';' ∷ b' ' ∷ join_messages ms ]

pub message_in : ResponseBody → Message
unfolding join_messages
message_in (plain s) = said s
message_in (object b) = elim b.message [
  | some (texts ms) ↦ said (join_messages ms)
  | some (text m) ↦ said m
  | some other_value ↦ request_failed
  | none ↦ request_failed
]

pub message_for_http_exception : (status : ℕ) → ResponseBody → Message
unfolding message_in
message_for_http_exception status body =
    if status == 429
    then too_many_requests
    else if leb 500 status
    then internal_server_error
    else message_in body

pub resolve : Thrown → Resolved
unfolding code_for_http_exception message_for_http_exception
resolve (app e message) = record { status = e.status; code = e.code; message = said message }
resolve (http status body) = record {
  status = status;
  code = code_for_http_exception status body;
  message = message_for_http_exception status body;
}
resolve unknown = record {
  status = 500;
  code = ErrorCode.internal_error;
  message = internal_server_error;
}
