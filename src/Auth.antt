-- ===== src/Auth.antt =====
-- backend/src/auth/auth.service.ts, with auth.exceptions.ts, utils/token.utils.ts and what it calls of
-- backend/src/users/users.service.ts: accounts and refresh tokens. Parameters are what the code takes
-- from libraries: `hash` is hashRefreshToken (HMAC-SHA256 under the secret), `verify` and
-- `hash_password` are Argon2, `lower` is `toLowerCase()`. Metadata of a session is left out.
pub mod Refresh
pub mod Accounts
pub mod Login
mod Tests
use docuai.Base.{
  ℕ, ◌+◌, ◌*◌, ◌&&◌, ◌||◌, Bool, true, false, not, Option, none, some, Text, same_text, trim, leb,
  ◌==◌, if◌then◌else◌, is_some, length, Result, ok, err, any,
}
use docuai.Table.{find_first, count_where, update_many, insert_row}
use docuai.Schema.{User, UserStatus, RefreshToken}
use docuai.Errors.{AppException, ErrorCode}
use docuai.World.{
  World, Action, ◌>>=◌, ◌>>◌, pure, throw, gets, or_throw, transaction, modify, throw_if,
  record_event, record_anonymous, SecurityEventType,
}

abbrev pub email_already_exists : AppException
email_already_exists = record { status = 409; code = ErrorCode.auth_email_already_exists }

abbrev pub invalid_credentials : AppException
invalid_credentials = record { status = 401; code = ErrorCode.auth_invalid_credentials }

abbrev pub invalid_refresh_token : AppException
invalid_refresh_token = record { status = 401; code = ErrorCode.auth_refresh_token_invalid }

abbrev pub refresh_token_expired : AppException
refresh_token_expired = record { status = 401; code = ErrorCode.auth_refresh_token_expired }

abbrev pub refresh_token_reused : AppException
refresh_token_reused = record { status = 401; code = ErrorCode.auth_refresh_token_reused }

abbrev pub unauthorized : AppException
unauthorized = record { status = 401; code = ErrorCode.auth_unauthorized }

-- What a violated unique index becomes where it is not caught.
abbrev pub unique_violation : AppException
unique_violation = record { status = 500; code = ErrorCode.internal_error }

-- accountStatusException
abbrev pub account_status_exception : UserStatus → AppException
account_status_exception UserStatus.suspended = record {
  status = 403;
  code = ErrorCode.auth_account_suspended;
}
account_status_exception _ = record { status = 403; code = ErrorCode.auth_account_deleted }

abbrev pub is_active_user : User → Bool
is_active_user user = elim user.status [ UserStatus.active ↦ true | _ ↦ false ]

-- `/^[A-Za-z0-9_-]{43,128}$/`
abbrev is_url_safe : ℕ → Bool
is_url_safe c =
    (leb b'A' c && leb c b'Z')
    || (leb b'a' c && leb c b'z')
    || (leb b'0' c && leb c b'9')
    || c == b'_'
    || c == b'-'

abbrev pub looks_like_refresh_token : Text → Bool
looks_like_refresh_token t =
    leb 43 (length t) && leb (length t) 128 && not (any (λ c. not (is_url_safe c)) t)

-- `where: { id, revokedAt: null }`
abbrev pub unrevoked : ℕ → RefreshToken → Bool
unrevoked id t = t.id == id && not (is_some t.revoked_at)

-- `where: { userId, revokedAt: null }`
abbrev pub unrevoked_of : ℕ → RefreshToken → Bool
unrevoked_of u t = t.user_id == u && not (is_some t.revoked_at)

abbrev pub revoked : ℕ → RefreshToken → RefreshToken
revoked now t = record t { revoked_at = some now }

abbrev pub revoke_tokens : (RefreshToken → Bool) → (now : ℕ) → World → World
revoke_tokens p now w = record w { tokens = update_many p (revoked now) w.tokens }

pub record RegisterDto : Type 0 where
  pub email : Text
  pub password : Text

pub record LoginDto : Type 0 where
  pub email : Text
  pub password : Text

-- The access token is a signed statement of the user's id.
pub record TokenPair : Type 0 where
  pub access_token : ℕ
  pub refresh_token : Text

-- What is drawn for a new row of the table of tokens: its key, and the token itself.
pub record FreshToken : Type 0 where
  pub id : ℕ
  pub token : Text

-- The event and the exception for an account that is not active.
refuse_account : User → SecurityEventType → Action AppException (Unit {0})
refuse_account user failure = do
  record_event failure user.id
  throw (account_status_exception user.status)

-- `assertAccountActive`, on the outcome of its test.
assert_active : Bool → User → SecurityEventType → Action AppException (Unit {0})
assert_active true user failure = pure tt
assert_active false user failure = refuse_account user failure

assert_account_active : User → SecurityEventType → Action AppException (Unit {0})
assert_account_active user failure = assert_active (is_active_user user) user failure

-- handleReuse, with the throw of its result
pub handle_reuse {ℓ} : {A : Type ℓ} → RefreshToken → (now : ℕ) → Action AppException A
handle_reuse token now = do
  modify (revoke_tokens (unrevoked_of token.user_id) now)
  record_event SecurityEventType.refresh_token_reuse_detected token.user_id
  throw refresh_token_reused

module _ (lower : Text → Text) where
  pub normalize_email : Text → Text
  normalize_email email = lower (trim email)

  -- UsersService.findByEmail
  pub find_by_email : Text → World → Option User
  find_by_email email w =
      let key = normalize_email email in find_first (λ x. same_text x.email key) w.users

-- UsersService.getActiveUser
pub get_active_user : ℕ → Action AppException User
get_active_user u = do
  found ← gets (λ w. find_first (λ x. x.id == u) w.users)
  user ← or_throw found (pure unauthorized)
  throw_if (not (is_active_user user)) (account_status_exception user.status)
  pure user

module _ (hash : Text → ℕ) (ttl_seconds : ℕ) where
  -- A token and its user, which a foreign key makes sure of.
  pub find_refresh_token : Text → World → Option (RefreshToken × User)
  find_refresh_token raw w =
      if looks_like_refresh_token raw
      then elim (find_first (λ t. t.token_hash == hash raw) w.tokens) [
        | none ↦ none
        | some t ↦ elim (find_first (λ x. x.id == t.user_id) w.users) [
          | none ↦ none
          | some x ↦ some (t, x)
        ]
      ]
      else none

  -- The index on `tokenHash` is unique.
  pub issue_refresh_token : (u : ℕ) → FreshToken → (now : ℕ) → Action AppException RefreshToken
  issue_refresh_token u fresh now = do
    taken ← gets (λ w. any (λ t. t.token_hash == hash fresh.token) w.tokens)
    throw_if taken unique_violation
    let token : RefreshToken = record {
      id = fresh.id;
      user_id = u;
      token_hash = hash fresh.token;
      expires_at = now + ttl_seconds * 1000;
      revoked_at = none;
    }
    modify (λ w. record w { tokens = insert_row token w.tokens })
    pure token

  -- The transaction of `refresh`: `none` when the token was revoked meanwhile.
  rotate : RefreshToken → FreshToken → (now : ℕ) → Action AppException (Option RefreshToken)
  rotate existing fresh now = do
    count ← gets (λ w. count_where (unrevoked existing.id) w.tokens)
    modify (revoke_tokens (unrevoked existing.id) now)
    (if count == 1
        then issue_refresh_token existing.user_id fresh now >>= (λ t. pure (some t))
        else pure none)

  finish_refresh :
      RefreshToken → FreshToken → (now : ℕ) → Option RefreshToken → Action AppException TokenPair
  finish_refresh existing fresh now none = handle_reuse existing now
  finish_refresh existing fresh now (some t) = do
    record_event SecurityEventType.refresh_token_rotated existing.user_id
    pure (record { access_token = existing.user_id; refresh_token = fresh.token })

  -- `refresh` for a token that is neither revoked nor expired and whose user is active.
  rotate_session :
      RefreshToken → FreshToken → (now : ℕ) (others : World → World) → Action AppException TokenPair
  rotate_session existing fresh now others = do
    modify others
    rotated ← transaction (rotate existing fresh now)
    finish_refresh existing fresh now rotated

  reject_expired : RefreshToken → (now : ℕ) → Action AppException TokenPair
  reject_expired existing now = do
    modify (revoke_tokens (unrevoked existing.id) now)
    record_event SecurityEventType.refresh_token_rejected existing.user_id
    throw refresh_token_expired

  reject_inactive : RefreshToken → User → (now : ℕ) → Action AppException TokenPair
  reject_inactive existing user now = do
    modify (revoke_tokens (unrevoked existing.id) now)
    record_event SecurityEventType.refresh_token_rejected user.id
    throw (account_status_exception user.status)

  refresh_found :
      RefreshToken
      → User
      → FreshToken
      → (now : ℕ) (others : World → World) → Action AppException TokenPair
  refresh_found existing user fresh now others =
      if is_some existing.revoked_at
      then handle_reuse existing now
      else if leb existing.expires_at now
      then reject_expired existing now
      else if not (is_active_user user)
      then reject_inactive existing user now
      else rotate_session existing fresh now others

  -- `others` is what other requests do between the read of the token and the transaction.
  pub refresh :
      Text → FreshToken → (now : ℕ) (others : World → World) → Action AppException TokenPair
  refresh raw fresh now others w = elim (find_refresh_token raw w) [
    | none ↦
        (record_anonymous SecurityEventType.refresh_token_rejected >> throw invalid_refresh_token) w
    | some (existing, user) ↦ refresh_found existing user fresh now others w
  ]

  pub logout : Text → (u now : ℕ) → Action AppException (Unit {0})
  logout raw u now w = elim (find_refresh_token raw w) [
    | none ↦ record_event SecurityEventType.logout u w
    | some (existing, _) ↦
        if not (existing.user_id == u)
        then record_event SecurityEventType.logout u w
        else (modify (revoke_tokens (unrevoked existing.id) now)
              >> record_event SecurityEventType.logout u)
            w
  ]

pub record AuthResponse : Type 0 where
  pub tokens : TokenPair
  pub user : User

reject_duplicate_email : Action AppException AuthResponse
reject_duplicate_email =
    record_anonymous SecurityEventType.register_failed >> throw email_already_exists

module _ (lower : Text → Text) (hash : Text → ℕ) (ttl_seconds : ℕ) (hash_password : Text → ℕ)
    (verify : Text → ℕ → Bool) where
  -- UsersService.create: the index on `email` is unique.
  pub create_user : (id : ℕ) → Text → (password_hash : ℕ) → Action AppException User
  create_user id email password_hash = do
    taken ← gets (find_by_email lower email)
    throw_if (is_some taken) unique_violation
    let user : User = record {
      id = id;
      email = normalize_email lower email;
      password_hash = password_hash;
      status = UserStatus.active;
    }
    modify (λ w. record w { users = insert_row user w.users })
    pure user

  -- The transaction of `register`.
  create_account :
      (id : ℕ) → RegisterDto → FreshToken → (now : ℕ) → Action AppException AuthResponse
  create_account id dto fresh now = do
    user ← create_user id dto.email (hash_password dto.password)
    token ← issue_refresh_token hash ttl_seconds user.id fresh now
    pure (record {
      tokens = record { access_token = user.id; refresh_token = fresh.token };
      user = user;
    })

  -- The `try` around the transaction: all that it throws is a violated unique index.
  finish_register : Result AppException AuthResponse → Action AppException AuthResponse
  finish_register (err e) = reject_duplicate_email
  finish_register (ok response) = do
    record_event SecurityEventType.register_success response.user.id
    pure response

  register_new :
      (id : ℕ)
      → RegisterDto
      → FreshToken
      → (now : ℕ) (others : World → World) → Action AppException AuthResponse
  register_new id dto fresh now others w =
      let (r, w') = transaction (create_account id dto fresh now) (others w) in finish_register r w'

  -- `others` is what other requests do while the password is hashed.
  pub register :
      (id : ℕ)
      → RegisterDto
      → FreshToken
      → (now : ℕ) (others : World → World) → Action AppException AuthResponse
  register id dto fresh now others w =
      if is_some (find_by_email lower dto.email w)
      then reject_duplicate_email w
      else register_new id dto fresh now others w

  reject_login : Option User → Action AppException AuthResponse
  reject_login none = record_anonymous SecurityEventType.login_failed >> throw invalid_credentials
  reject_login (some user) =
      record_event SecurityEventType.login_failed user.id >> throw invalid_credentials

  start_session : User → FreshToken → (now : ℕ) → Action AppException AuthResponse
  start_session user fresh now = do
    assert_account_active user SecurityEventType.login_failed
    token ← issue_refresh_token hash ttl_seconds user.id fresh now
    record_event SecurityEventType.login_success user.id
    pure (record {
      tokens = record { access_token = user.id; refresh_token = fresh.token };
      user = user;
    })

  -- `decoy` is the hash that an unknown email is verified against.
  pub login : (decoy : ℕ) → LoginDto → FreshToken → (now : ℕ) → Action AppException AuthResponse
  login decoy dto fresh now w =
      let found = find_by_email lower dto.email w in
      let matches = verify dto.password (elim found [ none ↦ decoy | some x ↦ x.password_hash ]) in
      elim found [
        | none ↦ reject_login none w
        | some user ↦ if matches then start_session user fresh now w else reject_login (some user) w
      ]
