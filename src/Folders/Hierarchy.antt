-- ===== src/Folders/Hierarchy.antt =====
-- The methods of FoldersService (backend/src/folders/folders.service.ts) keep the shape of the
-- user's folders, whatever they are asked.
use docuai.Base.{
  refl, ◌&&◌, not, Result-cases, ℕ, suc, ◌+◌, ◌≤◌, ◌≡◌, ◌⊎◌, inl, inr, false, Option, none, some,
  List, arith, ◌==◌, Option-cases, Bool-cases, length, any, is_empty, ok, err, is_some,
}
use docuai.Table.{find_first, insert_row}
use docuai.World.{World}
use docuai.Schema.{Folder}
use docuai.Folders.{
  new_folder, owned, max_folder_depth, recursion_limit, ancestor_chain, subtree_height, not_found,
  get_owned, assert_valid_move, new_parent, write_patch, FolderPatch, apply_patch, update, remove,
  create, CreateFolderDto, assert_parent, same_parent, unfiled, promoted, deleted,
}
use docuai.Folders.Forest.{below, find-here, root, IsForest, Rooted-length_chain, chain-find}
use docuai.Folders.Creation.{create_root-IsForest, create_below-IsForest}
use docuai.Folders.Removal.{without, remove-IsForest}
use docuai.Folders.Moves.{find-patched_self, rename-IsForest, move-IsForest, Rooted-avoid, patched}

-- What the checks of a move establish.
MoveFits : ℕ → List Folder → Folder → Option ℕ → Type 0
MoveFits u fs folder none = subtree_height u fs folder.id ≤ max_folder_depth
MoveFits u fs folder (some q) =
    (is_empty (ancestor_chain u fs q) ≡ false)
    × (any (λ a. a == folder.id) (ancestor_chain u fs q) ≡ false)
    × (length (ancestor_chain u fs q) + subtree_height u fs folder.id ≤ max_folder_depth)

not_found-folders : (u id : ℕ) (w : World) → (not_found u id w).1.folders ≡ w.folders
unfolding not_found
not_found-folders u id w = ground arith

assert_valid_move_lem :
    (u : ℕ) (folder : Folder) (p : Option ℕ) (w : World)
    → (assert_valid_move u folder p w).0 ≡ ok tt
    → ((assert_valid_move u folder p w).1 ≡ w) × MoveFits u w.folders folder p
unfolding assert_valid_move MoveFits
assert_valid_move_lem u folder none w e = ground arith
assert_valid_move_lem u folder (some q) w e = ground arith

new_parent_lem :
    (u : ℕ) (folder : Folder) (p : Option (Option ℕ)) (w : World) {q : Option (Option ℕ)}
    → (new_parent u folder p w).0 ≡ ok q
    → ((new_parent u folder p w).1 ≡ w)
      × ((q ≡ none) ⊎ ((r : Option ℕ) × (q ≡ some r) × MoveFits u w.folders folder r))
unfolding new_parent
new_parent_lem u folder none w e = ground arith
new_parent_lem u folder (some r) w e = elim (Bool-cases (same_parent r folder.parent_id)) [
  | inl same ↦ ground arith
  | inr differs ↦ elim (Result-cases (assert_valid_move u folder r w).0) [
    | inl (_, done) ↦
        let (same, fits) = assert_valid_move_lem u folder r w done in
        (ground arith, inr (r, ground arith, fits))
    | inr bad ↦ absurd (ground arith)
  ]
]

-- A checked move keeps the shape.
MoveFits-IsForest :
    (u : ℕ) (fs : List Folder) (folder : Folder) (patch : FolderPatch) (p : Option ℕ)
    → find_first (owned u folder.id) fs ≡ some folder
    → patch.parent_id ≡ some p
    → MoveFits u fs folder p
    → IsForest u fs
    → IsForest u (patched u fs folder.id patch)
unfolding MoveFits ancestor_chain
MoveFits-IsForest u fs folder patch none here to fits forest =
    move-IsForest u fs folder.id patch 0
      (root (apply_patch patch folder) (find-patched_self u fs folder.id patch folder here)
        (ground arith))
      (omega arith) forest
MoveFits-IsForest u fs folder patch (some q) here to (present, avoids, fits) forest =
    let (g, e) = chain-find u fs _ q present in
    let (k, h, r) = forest q g e in
    let long = Rooted-length_chain u fs recursion_limit r (omega arith) in
    move-IsForest u fs folder.id patch (suc k)
      (below (apply_patch patch folder) q (find-patched_self u fs folder.id patch folder here)
        (ground arith) (Rooted-avoid u fs folder.id patch recursion_limit r (omega arith) avoids))
      (omega (arith, long)) forest

write_patch-IsForest :
    (u : ℕ) (folder : Folder) (patch : FolderPatch) (w : World)
    → find_first (owned u folder.id) w.folders ≡ some folder
    → ((patch.parent_id ≡ none)
        ⊎ ((r : Option ℕ) × (patch.parent_id ≡ some r) × MoveFits u w.folders folder r))
    → IsForest u w.folders
    → IsForest u (write_patch folder patch w).1.folders
unfolding write_patch
write_patch-IsForest u folder patch w here checked forest =
    elim (Bool-cases (not (is_some patch.name) && not (is_some patch.parent_id))) [
      | inl nothing ↦ rw nothing forest
      | inr changes ↦ rw changes (elim checked [
        | inl same ↦ rename-IsForest u w.folders folder.id patch same forest
        | inr (r, to, fits) ↦ MoveFits-IsForest u w.folders folder patch r here to fits forest
      ])
    ]

-- Nothing is written when the folder is not the user's or a check fails.
update_refused :
    (u id : ℕ) (dto : FolderPatch) (w : World)
    → find_first (owned u id) w.folders ≡ none
    → (update u id dto w).1.folders ≡ w.folders
unfolding update get_owned
update_refused u id dto w e = ground arith

update_checked :
    (u id : ℕ) (dto : FolderPatch) (w : World) (folder : Folder)
    → find_first (owned u id) w.folders ≡ some folder
    → (update u id dto w).1.folders ≡ elim (new_parent u folder dto.parent_id w).0 [
      | ok p ↦
          (write_patch folder
            (record { name = dto.name; parent_id = p })
            (new_parent u folder dto.parent_id w).1).1.folders
      | err _ ↦ w.folders
    ]
unfolding update get_owned write_patch
update_checked u id dto w folder e = ground arith

pub update-IsForest :
    (u id : ℕ) (dto : FolderPatch) (w : World)
    → IsForest u w.folders
    → IsForest u (update u id dto w).1.folders
update-IsForest u id dto w forest = elim (Option-cases (find_first (owned u id) w.folders)) [
  | inl missing ↦ rw (update_refused u id dto w missing) forest
  | inr (folder, e) ↦
      rw (update_checked u id dto w folder e)
        (elim (Result-cases (new_parent u folder dto.parent_id w).0) [
          | inl (p, good) ↦
              let (same, checked) = new_parent_lem u folder dto.parent_id w good in
              let here = find-here u w.folders id folder e in
              rw (good, same)
                (write_patch-IsForest u folder (record { name = dto.name; parent_id = p }) w here
                  checked forest)
          | inr (_, bad) ↦ rw bad forest
        ])
]

-- A removal deletes the folder and promotes its children, or changes no folder.
remove_folders :
    (u id : ℕ) (w : World) (folder : Folder)
    → find_first (owned u id) w.folders ≡ some folder
    → ((remove u id w).1.folders ≡ w.folders)
      ⊎ ((remove u id w).1.folders ≡ without u w.folders folder)
unfolding remove get_owned unfiled promoted deleted
remove_folders u id w folder e = ground arith

remove_refused :
    (u id : ℕ) (w : World)
    → find_first (owned u id) w.folders ≡ none
    → (remove u id w).1.folders ≡ w.folders
unfolding remove get_owned
remove_refused u id w e = ground arith

pub remove_keeps_IsForest :
    (u id : ℕ) (w : World) → IsForest u w.folders → IsForest u (remove u id w).1.folders
remove_keeps_IsForest u id w forest = elim (Option-cases (find_first (owned u id) w.folders)) [
  | inl missing ↦ rw (remove_refused u id w missing) forest
  | inr (folder, e) ↦ elim (remove_folders u id w folder e) [
    | inl same ↦ rw same forest
    | inr gone ↦
        rw gone (remove-IsForest u w.folders folder (find-here u w.folders id folder e) forest)
  ]
]

create_root :
    (u : ℕ) (dto : CreateFolderDto) (id now : ℕ) (w : World)
    → dto.parent_id ≡ none
    → (create u dto id now w).1.folders ≡ insert_row (new_folder u dto id now) w.folders
unfolding create
create_root u dto id now w e = ground arith

create_below :
    (u : ℕ) (dto : CreateFolderDto) (id now p : ℕ) (w : World)
    → dto.parent_id ≡ some p
    → (((create u dto id now w).1.folders ≡ w.folders)
        ⊎ (((create u dto id now w).1.folders ≡ insert_row (new_folder u dto id now) w.folders)
            × (is_empty (ancestor_chain u w.folders p) ≡ false)
            × (length (ancestor_chain u w.folders p) + 1 ≤ max_folder_depth)))
unfolding create assert_parent
create_below u dto id now p w e = ground arith

pub create_keeps_IsForest :
    (u : ℕ) (dto : CreateFolderDto) (id now : ℕ) (w : World)
    → find_first (λ f. f.id == id) w.folders ≡ none
    → IsForest u w.folders
    → IsForest u (create u dto id now w).1.folders
unfolding ancestor_chain
create_keeps_IsForest u dto id now w fresh forest = elim (Option-cases dto.parent_id) [
  | inl top ↦
      rw (create_root u dto id now w top)
        (create_root-IsForest u w.folders (new_folder u dto id now) refl fresh top forest)
  | inr (p, up) ↦ elim (create_below u dto id now p w up) [
    | inl same ↦ rw same forest
    | inr (made, present, fits) ↦
        let (g, e) = chain-find u w.folders _ p present in
        let (k, h, r) = forest p g e in
        let long = Rooted-length_chain u w.folders recursion_limit r (omega arith) in
        rw made (
          create_below-IsForest u w.folders (new_folder u dto id now) refl fresh p up r
            (omega (arith, long)) forest)
  ]
]
