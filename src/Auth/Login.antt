-- ===== src/Auth/Login.antt =====
-- Who can log in: AuthService.login (backend/src/auth/auth.service.ts).
use docuai.Base.{ℕ, ◌≡◌, Bool, true, false, some, Text, any, ◌==◌}
use docuai.Schema.{User}
use docuai.World.{World}
use docuai.Auth.{FreshToken, LoginDto, find_by_email, is_active_user}

module _ (lower : Text → Text) (hash : Text → ℕ) (ttl : ℕ) (hash_password : Text → ℕ)
    (verify : Text → ℕ → Bool) where
  -- The user has the email and the password of the request and an active account, and the token that
  -- is drawn is new.
  pub record CanLogin (dto : LoginDto) (fresh : FreshToken) (w : World) (user : User) : Type 0 where
    pub has_email : find_by_email lower dto.email w ≡ some user
    pub has_password : verify dto.password user.password_hash ≡ true
    pub is_active : is_active_user user ≡ true
    pub is_new : any (λ t. t.token_hash == hash fresh.token) w.tokens ≡ false
