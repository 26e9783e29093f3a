-- ===== src/Folders/Owned.antt =====
-- FoldersService.getOwned (backend/src/folders/folders.service.ts) writes to no table.
use docuai.Base.{ℕ, ◌≡◌, refl, none, some, inl, inr, arith, Result-cases}
use docuai.Table.{find_first}
use docuai.World.{World, or_throw}
use docuai.Folders.{not_found, get_owned, owned}

not_found-documents : (u id : ℕ) (w : World) → (not_found u id w).1.documents ≡ w.documents
unfolding not_found
not_found-documents u id w = ground arith

pub get_owned-documents : (u id : ℕ) (w : World) → (get_owned u id w).1.documents ≡ w.documents
unfolding get_owned
get_owned-documents u id w =
    elim (find_first (owned u id) w.folders)
      as (λ o. (or_throw o (not_found u id) w).1.documents ≡ w.documents) [
        | none ↦ elim (Result-cases (not_found u id w).0) [
          | inl (a, e) ↦ rw (or_throw, e) (not_found-documents u id w)
          | inr (x, e) ↦ rw (or_throw, e) (not_found-documents u id w)
        ]
        | some f ↦ refl
      ]

not_found-folders : (u id : ℕ) (w : World) → (not_found u id w).1.folders ≡ w.folders
unfolding not_found
not_found-folders u id w = ground arith

pub get_owned-folders : (u id : ℕ) (w : World) → (get_owned u id w).1.folders ≡ w.folders
unfolding get_owned
get_owned-folders u id w =
    elim (find_first (owned u id) w.folders)
      as (λ o. (or_throw o (not_found u id) w).1.folders ≡ w.folders) [
        | none ↦ elim (Result-cases (not_found u id w).0) [
          | inl (a, e) ↦ rw (or_throw, e) (not_found-folders u id w)
          | inr (x, e) ↦ rw (or_throw, e) (not_found-folders u id w)
        ]
        | some f ↦ refl
      ]
