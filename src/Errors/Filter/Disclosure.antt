-- ===== src/Errors/Filter/Disclosure.antt =====
-- What of an exception reaches a client (backend/src/common/filters/http-exception.filter.ts).
use docuai.Base.{
  ℕ, ◌<◌, ◌≡◌, ◌≢◌, refl, Option, none, some, List, Text, ◌==◌, leb, inl, inr, Bool-cases, arith,
  subst,
}
use docuai.Errors.{AppException}
use docuai.Errors.Filter.{
  BodyMessage, text, texts, other_value, NestErrorBody, ResponseBody, plain, object, Thrown, app,
  http, unknown, Message, said, message_in, join_messages, message_for_http_exception, resolve,
}

-- The body states the message.
pub data Says : ResponseBody → Text → Type 0 where
  plainly : (m : Text) → Says (plain m) m
  in_message : (b : NestErrorBody) (m : Text) → b.message ≡ some (text m) → Says (object b) m
  in_list :
      (b : NestErrorBody) (ms : List Text)
      → b.message ≡ some (texts ms)
      → Says (object b) (join_messages ms)

-- The message may be shown: a service chose it, or the framework for an error of the client.
pub data Shown : Thrown → Text → Type 0 where
  by_service : (e : AppException) (m : Text) → Shown (app e m) m
  by_framework :
      (status : ℕ) (body : ResponseBody) (m : Text)
      → status < 500
      → status ≢ 429
      → Says body m
      → Shown (http status body) m

said-inj : (a b : Text) → said a ≡ said b → a ≡ b
said-inj a b e = cc

object-Says :
    (b : NestErrorBody) (m : Text) (found : Option BodyMessage)
    → b.message ≡ found
    → message_in (object b) ≡ said m
    → Says (object b) m
unfolding message_in
object-Says b m (some (text s)) e h =
    subst (λ t. Says (object b) t) (said-inj s m (rw (message_in, e) at h)) (in_message b s e)
object-Says b m (some (texts ms)) e h =
    subst (λ t. Says (object b) t) (said-inj (join_messages ms) m (rw (message_in, e) at h))
      (in_list b ms e)
object-Says b m (some other_value) e h =
    absurd (let k : Message.request_failed ≡ said m = rw (message_in, e) at h in cc)
object-Says b m none e h =
    absurd (let k : Message.request_failed ≡ said m = rw (message_in, e) at h in cc)

message_in-Says : (body : ResponseBody) (m : Text) → message_in body ≡ said m → Says body m
unfolding message_in
message_in-Says (plain s) m e = subst (λ t. Says (plain s) t) (said-inj s m e) (plainly s)
message_in-Says (object b) m e = object-Says b m b.message refl e

-- A message that reaches a client, other than the fixed ones, was chosen by a service, or it is in the
-- body of an exception of the framework whose status is below 500 and not 429.
pub resolve-Shown : (t : Thrown) (m : Text) → (resolve t).message ≡ said m → Shown t m
unfolding resolve message_for_http_exception
resolve-Shown (app e s) m h = subst (λ t. Shown (app e s) t) (said-inj s m h) (by_service e s)
resolve-Shown unknown m h = absurd (cc)
resolve-Shown (http status body) m h = elim (Bool-cases (status == 429)) [
  | inl y ↦ absurd (
      let k : Message.too_many_requests ≡ said m =
        rw (resolve, message_for_http_exception, y) at h in
      cc)
  | inr n ↦ elim (Bool-cases (leb 500 status)) [
    | inl y ↦ absurd (
        let k : Message.internal_server_error ≡ said m =
          rw (resolve, message_for_http_exception, n, y) at h in
        cc)
    | inr k ↦
        let e : message_in body ≡ said m = rw (resolve, message_for_http_exception, n, k) at h in
        by_framework status body m (ground (arith, k)) (ground (arith, n))
          (message_in-Says body m e)
  ]
]
