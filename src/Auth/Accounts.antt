-- ===== src/Auth/Accounts.antt =====
-- Accounts: AuthService.register and login (backend/src/auth/auth.service.ts).
use docuai.Base.{◌≤◌, Text, same_text}
use docuai.World.Keeps.{Keeps}
use docuai.World.{World}
use docuai.Table.{count_where}

-- `@@unique` of the emails.
abbrev pub UniqueEmails : World → Type 0
UniqueEmails w = (email : Text) → count_where (λ x. same_text x.email email) w.users ≤ 1
