-- ===== src/Auth/Tests.antt =====
-- The theorems on accounts and sessions (backend/src/auth/auth.service.ts) at concrete inputs.
use docuai.Base.{
  ◌==◌, zero, suc, ℕ, ◌≡◌, refl, Bool, false, none, some, [], ◌∷◌, Text, ok, err, length,
}
use docuai.Table.{find_first, count_where, update_many, insert_row}
use docuai.Schema.{User, UserStatus, RefreshToken}
use docuai.World.{World}
use docuai.Auth.{
  LoginDto, FreshToken, RegisterDto, refresh, find_refresh_token, refresh_token_reused,
  rotate_session, rotate, finish_refresh, issue_refresh_token, refresh_found,
}
use docuai.Auth.Refresh.{AllRevoked, Stands, refresh-refresh}

abbrev repeated : ℕ → ℕ → Text
repeated zero c = []
repeated (suc n) c = c ∷ repeated n c

-- Tokens are told apart by their length here.
abbrev hash : Text → ℕ
hash t = length t

abbrev old_token : Text
old_token = repeated 64 b'a'

abbrev fresh : FreshToken
fresh = record { id = 12; token = repeated 63 b'a' }

abbrev again : FreshToken
again = record { id = 13; token = repeated 62 b'a' }

abbrev user : User
user = record { id = 7; email = b'a' ∷ []; password_hash = 3; status = UserStatus.active }

abbrev session : RefreshToken
session = record { id = 11; user_id = 7; token_hash = 64; expires_at = 900; revoked_at = none }

abbrev before : World
before = record {
  folders = [];
  documents = [];
  jobs = [];
  pages = [];
  users = user ∷ [];
  tokens = session ∷ [];
  removed_objects = [];
  events = [];
}

session_found : find_refresh_token hash 60 old_token before ≡ some (session, user)
unfolding find_refresh_token find_first
session_found = refl

session-Stands : Stands hash 60 old_token session before
session-Stands = record {
  row = session;
  owner = user;
  is_found = session_found;
  same_id = refl;
  same_user = refl;
}

refresh_succeeds :
    (refresh hash 60 old_token fresh 100 (λ w. w) before).0
    ≡ ok (record { access_token = 7; refresh_token = repeated 63 b'a' })
unfolding refresh refresh_found rotate_session rotate finish_refresh issue_refresh_token
    find_refresh_token find_first count_where update_many insert_row
refresh_succeeds = refl

refresh-refresh_example :
    ((refresh hash 60 old_token again 120
        (λ w. w)
        (refresh hash 60 old_token fresh 100 (λ w. w) before).1).0
      ≡ err refresh_token_reused)
    × AllRevoked 7
        (refresh hash 60 old_token again 120
          (λ w. w)
          (refresh hash 60 old_token fresh 100 (λ w. w) before).1).1
refresh-refresh_example =
    refresh-refresh hash 60 old_token fresh again 100 120 (λ w. w) (λ w. w) before session user
      (record { access_token = 7; refresh_token = repeated 63 b'a' }) session_found session-Stands
      refresh_succeeds

abbrev dto : RegisterDto
dto = record { email = b'b' ∷ []; password = b'p' ∷ [] }

abbrev no_lower : Text → Text
no_lower t = t

abbrev never : Text → ℕ → Bool
never t n = false

abbrev credentials : LoginDto
credentials = record { email = b'a' ∷ []; password = b'p' ∷ [] }

abbrev has_length : Text → ℕ → Bool
has_length t n = length t == n
