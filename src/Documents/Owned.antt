-- ===== src/Documents/Owned.antt =====
-- DocumentsService.getOwned (backend/src/documents/documents.service.ts) writes to no table.
use docuai.Base.{ℕ, inl, inr, Bool-cases, ltb, ◌==◌, not, ◌&&◌, List}
use docuai.Table.{find_first, count_where}
use docuai.World.{World, SecurityEvent, gets, or_throw}
use docuai.World.Keeps.{Keeps, Keeps-bind, or_throw-Keeps}
use docuai.Documents.{not_found, get_owned, live}

module _ (P : World → Type 0)
    (logs : (w : World) (es : List SecurityEvent) → P w → P (record w { events = es })) where
  pub not_found-Keeps : (u id : ℕ) → Keeps P (not_found u id)
  unfolding not_found
  not_found-Keeps u id w h =
      elim (Bool-cases
        (ltb 0 (count_where (λ d. d.id == id && not (d.user_id == u)) w.documents))) [
          | inl t ↦ rw t (logs w _ h)
          | inr t ↦ rw t h
        ]

  pub get_owned-Keeps : (u id : ℕ) → Keeps P (get_owned u id)
  unfolding get_owned
  get_owned-Keeps u id =
      Keeps-bind P (gets (λ w. find_first (live u id) w.documents))
        (λ o. or_throw o (not_found u id)) (λ w h. h)
        (λ o. or_throw-Keeps P o (not_found u id) (not_found-Keeps u id))
