-- ===== src/Config/Tests.antt =====
-- The theorem on durations (backend/src/config/configuration.ts) at a concrete input, and runs of the
-- other readers.
use docuai.Base.{◌≡◌, refl, true, false, some, [], ◌∷◌, Text}
use docuai.Config.{to_bool}

-- `15m `
abbrev access_ttl : Text
access_ttl = b'1' ∷ b'5' ∷ b'm' ∷ b' ' ∷ []

to_bool_run : to_bool (λ s. s) (some (b'o' ∷ b'n' ∷ [])) false ≡ true
unfolding to_bool
to_bool_run = refl
