-- ===== src/Auth/Refresh.antt =====
-- Rotation of refresh tokens and the answer to their reuse: AuthService.refresh
-- (backend/src/auth/auth.service.ts).
use docuai.Base.{
  subst, refl, inl, inr, Bool-cases, ==_refl, ◌==◌, if◌then◌else◌, ℕ, ◌≡◌, true, none, some, List,
  [], ◌∷◌, Memᴰ, Text, ok, arith, ◌+◌, ◌*◌, is_some,
}
use docuai.Table.Laws.{find_first-update_many, find_first-insert_row}
use docuai.Table.{find_first, update_many, insert_row}
use docuai.Schema.{RefreshToken, User}
use docuai.World.{World}
use docuai.Auth.{
  refresh_token_reused, err, looks_like_refresh_token, find_first, FreshToken, TokenPair,
  find_refresh_token, refresh, revoked, unrevoked, unrevoked_of, handle_reuse, refresh_found,
  rotate_session, rotate, finish_refresh, issue_refresh_token, reject_expired, reject_inactive,
}

-- No session of the user is open.
abbrev pub AllRevoked : (u : ℕ) → World → Type 0
AllRevoked u w = (t : RefreshToken) → Memᴰ t w.tokens → t.user_id ≡ u → is_some t.revoked_at ≡ true

update_many-revoked :
    (u now : ℕ) (ts : List RefreshToken) (t : RefreshToken)
    → Memᴰ t (update_many (unrevoked_of u) (revoked now) ts)
    → t.user_id ≡ u
    → is_some t.revoked_at ≡ true
unfolding update_many
update_many-revoked u now [] t m e = elim m [ ]
update_many-revoked u now (x ∷ ts) t (Memᴰ.head s) e = ground (arith, ==_refl u)
update_many-revoked u now (x ∷ ts) t (Memᴰ.tail m) e = update_many-revoked u now ts t m e

handle_reuse-AllRevoked :
    (t : RefreshToken) (now : ℕ) (w : World)
    → AllRevoked t.user_id (handle_reuse {A = TokenPair} t now w).1
unfolding handle_reuse
handle_reuse-AllRevoked t now w x m e = update_many-revoked t.user_id now w.tokens x m e

handle_reuse-err :
    (t : RefreshToken) (now : ℕ) (w : World)
    → (handle_reuse {A = TokenPair} t now w).0 ≡ err refresh_token_reused
unfolding handle_reuse
handle_reuse-err t now w = refl

module _ (hash : Text → ℕ) (ttl : ℕ) where
  -- The row of a token under its hash is still there, in whatever state.
  pub record Stands (raw : Text) (existing : RefreshToken) (w : World) : Type 0 where
    pub row : RefreshToken
    pub owner : User
    pub is_found : find_refresh_token hash ttl raw w ≡ some (row, owner)
    pub same_id : row.id ≡ existing.id
    pub same_user : row.user_id ≡ existing.user_id

  -- A revoked token is answered as reuse.
  refresh-revoked :
      (raw : Text) (fresh : FreshToken) (now : ℕ) (others : World → World) (w : World)
      (t : RefreshToken) (user : User)
      → find_refresh_token hash ttl raw w ≡ some (t, user)
      → is_some t.revoked_at ≡ true
      → refresh hash ttl raw fresh now others w ≡ handle_reuse t now w
  unfolding refresh refresh_found
  refresh-revoked raw fresh now others w t user e r = ground arith

  refresh-ok :
      (raw : Text) (fresh : FreshToken) (now : ℕ) (others : World → World) (w : World)
      (t : RefreshToken) (user : User) (p : TokenPair)
      → find_refresh_token hash ttl raw w ≡ some (t, user)
      → (refresh hash ttl raw fresh now others w).0 ≡ ok p
      → (refresh hash ttl raw fresh now others w) ≡ rotate_session hash ttl t fresh now others w
  unfolding refresh refresh_found reject_expired reject_inactive handle_reuse
  refresh-ok raw fresh now others w t user p e h = ground arith

  abbrev new_token : RefreshToken → FreshToken → (now : ℕ) → RefreshToken
  new_token t fresh now = record {
    id = fresh.id;
    user_id = t.user_id;
    token_hash = hash fresh.token;
    expires_at = now + ttl * 1000;
    revoked_at = none;
  }

  -- A rotation that succeeds revokes the old token and adds the new one, in one transaction.
  rotate_session-ok :
      (t : RefreshToken) (fresh : FreshToken) (now : ℕ) (others : World → World) (w : World)
      (p : TokenPair)
      → (rotate_session hash ttl t fresh now others w).0 ≡ ok p
      → ((rotate_session hash ttl t fresh now others w).1.users ≡ (others w).users)
        × ((rotate_session hash ttl t fresh now others w).1.tokens
            ≡ insert_row
                (new_token t fresh now)
                (update_many (unrevoked t.id) (revoked now) (others w).tokens))
  unfolding rotate_session rotate issue_refresh_token finish_refresh handle_reuse
  rotate_session-ok t fresh now others w p h = ground arith

  -- The row that a revocation by key leaves under its hash.
  find_first-revoked :
      (k now : ℕ) (fresh row : RefreshToken) (id : ℕ) (ts : List RefreshToken)
      → find_first (λ t. t.token_hash == k) ts ≡ some row
      → find_first
          (λ t. t.token_hash == k)
          (insert_row fresh (update_many (unrevoked id) (revoked now) ts))
        ≡ some (if unrevoked id row then revoked now row else row)
  find_first-revoked k now fresh row id ts e =
      let updated =
        find_first-update_many (λ t. t.token_hash == k) (unrevoked id) (revoked now) ts
          (λ t _. refl) in
      let inserted =
        find_first-insert_row (λ t. t.token_hash == k) fresh
          (update_many (unrevoked id) (revoked now) ts) in
      ground arith

  Stands-rotated :
      (raw : Text) (t fresh : RefreshToken) (now : ℕ) (v w : World)
      → Stands raw t v
      → w.users ≡ v.users
      → w.tokens ≡ insert_row fresh (update_many (unrevoked t.id) (revoked now) v.tokens)
      → (row : RefreshToken) × ((user : User) × ((find_refresh_token hash ttl raw w
              ≡ some (row, user))
            × ((is_some row.revoked_at ≡ true) × (row.user_id ≡ t.user_id))))
  unfolding find_refresh_token
  Stands-rotated raw t fresh now v w stands users tokens =
      let row = stands.row in
      let found = stands.is_found in
      let id = stands.same_id in
      let shape : looks_like_refresh_token raw ≡ true = ground arith in
      let kept : find_first (λ t. t.token_hash == hash raw) v.tokens ≡ some row = ground arith in
      let next = find_first-revoked (hash raw) now fresh row t.id v.tokens kept in
      let owned : find_first (λ x. x.id == row.user_id) v.users ≡ some stands.owner =
        ground arith in
      elim (Bool-cases (unrevoked t.id row)) [
        | inl e ↦ (revoked now row, (stands.owner, (ground arith, (refl, stands.same_user))))
        | inr e ↦
            (row, (stands.owner, (ground arith, (ground (arith, ==_refl t.id), stands.same_user))))
      ]

  -- Where a refresh succeeds, the token that it was given is used up: given again, whatever is drawn
  -- for that request and whenever it comes, it is refused as reused, and no session of the user is
  -- open afterwards, that of the first refresh included. The row of the token under its hash must
  -- still stand when the first refresh writes, in whatever state other requests left it.
  pub refresh-refresh :
      (raw : Text) (fresh again : FreshToken) (now later : ℕ) (others others2 : World → World)
      (w : World) (t : RefreshToken) (user : User) (p : TokenPair)
      → find_refresh_token hash ttl raw w ≡ some (t, user)
      → Stands raw t (others w)
      → (refresh hash ttl raw fresh now others w).0 ≡ ok p
      → let v = (refresh hash ttl raw fresh now others w).1 in
        ((refresh hash ttl raw again later others2 v).0 ≡ err refresh_token_reused)
        × AllRevoked t.user_id (refresh hash ttl raw again later others2 v).1
  refresh-refresh raw fresh again now later others others2 w t user p e stands h =
      let v = (refresh hash ttl raw fresh now others w).1 in
      let rotates = refresh-ok raw fresh now others w t user p e h in
      let (users, tokens) = rotate_session-ok t fresh now others w p (rw rotates at h) in
      let (row, (owner, (found, (gone, same)))) =
        Stands-rotated raw t (new_token t fresh now) now (others w) v stands (rw rotates users)
          (rw rotates tokens) in
      let reuse = refresh-revoked raw again later others2 v row owner found gone in
      (
        rw reuse (handle_reuse-err row later v),
        rw reuse (
            subst (λ u. AllRevoked u (handle_reuse {A = TokenPair} row later v).1) same
              (handle_reuse-AllRevoked row later v)),
      )
