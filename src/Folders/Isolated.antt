-- ===== src/Folders/Isolated.antt =====
-- The requests to FoldersService (backend/src/folders/folders.service.ts) leave the rows of other users.
use docuai.Base.{
  ℕ, ◌≡◌, ◌≢◌, ◌⊎◌, ◌∙◌, ap, sym, subst, refl, none, some, inl, inr, arith, ◌==◌, Option,
  Option-cases, Result-cases, Memᴰ,
}
use docuai.Table.{find_first, update_many, insert_row, delete_many}
use docuai.Table.Laws.{
  find_first-holds, find_first-Mem, find_many-update_many, find_many-insert_row,
  find_many-delete_many,
}
use docuai.Schema.{Folder}
use docuai.World.{World}
use docuai.Folders.{
  owned, filed, child, new_folder, create, update, remove, CreateFolderDto, FolderPatch,
  apply_patch, get_owned, not_found, unfiled, promoted, deleted, new_parent, assert_valid_move,
  write_patch, assert_parent,
}
use docuai.Folders.Contents.{emptied}
use docuai.Folders.History.{FolderRequest, creates, updates, removes, after}
use docuai.World.Rows.{folders_of_become, documents_of_become, SameRows, UniqueIds}

create_tables :
    (u : ℕ) (dto : CreateFolderDto) (id now : ℕ) (w : World)
    → ((create u dto id now w).1.documents ≡ w.documents)
      × (((create u dto id now w).1.folders ≡ w.folders)
          ⊎ ((create u dto id now w).1.folders ≡ insert_row (new_folder u dto id now) w.folders))
unfolding create assert_parent not_found
create_tables u dto id now w = ground arith

remove_tables :
    (u id : ℕ) (w : World) (folder : Folder)
    → find_first (owned u id) w.folders ≡ some folder
    → (((remove u id w).1.documents ≡ w.documents) × ((remove u id w).1.folders ≡ w.folders))
      ⊎ (((remove u id w).1.documents ≡ update_many (filed u folder.id) emptied w.documents)
          × ((remove u id w).1.folders
              ≡ delete_many (owned u folder.id) (
                  update_many
                    (child u folder.id)
                    (λ f. record f { parent_id = folder.parent_id })
                    w.folders)))
unfolding remove get_owned unfiled promoted deleted
remove_tables u id w folder e = ground arith

remove_refused_tables :
    (u id : ℕ) (w : World)
    → find_first (owned u id) w.folders ≡ none
    → ((remove u id w).1.documents ≡ w.documents) × ((remove u id w).1.folders ≡ w.folders)
unfolding remove get_owned not_found
remove_refused_tables u id w e = ground arith

new_parent_tables :
    (u : ℕ) (folder : Folder) (p : Option (Option ℕ)) (w : World)
    → ((new_parent u folder p w).1.documents ≡ w.documents)
      × ((new_parent u folder p w).1.folders ≡ w.folders)
unfolding new_parent assert_valid_move not_found
new_parent_tables u folder none w = (refl, refl)
new_parent_tables u folder (some none) w = ground arith
new_parent_tables u folder (some (some q)) w = ground arith

write_patch_tables :
    (folder : Folder) (patch : FolderPatch) (w : World)
    → ((write_patch folder patch w).1.documents ≡ w.documents)
      × (((write_patch folder patch w).1.folders ≡ w.folders)
          ⊎ ((write_patch folder patch w).1.folders
              ≡ update_many (λ f. f.id == folder.id) (apply_patch patch) w.folders))
unfolding write_patch
write_patch_tables folder patch w = ground arith

update_refused_tables :
    (u id : ℕ) (dto : FolderPatch) (w : World)
    → find_first (owned u id) w.folders ≡ none
    → ((update u id dto w).1.documents ≡ w.documents) × ((update u id dto w).1.folders ≡ w.folders)
unfolding update get_owned not_found
update_refused_tables u id dto w e = ground arith

-- The world in which an update ends: that of the write, or the one before it but for the log.
update_worlds :
    (u id : ℕ) (dto : FolderPatch) (w : World) (folder : Folder)
    → find_first (owned u id) w.folders ≡ some folder
    → let r = update u id dto w in
      let (p, w') = new_parent u folder dto.parent_id w in
      ((r.1.documents ≡ w.documents) × (r.1.folders ≡ w.folders))
      ⊎ ((q : Option (Option ℕ)) × (r.1.documents
            ≡ (write_patch folder (record { name = dto.name; parent_id = q }) w').1.documents)
          × (r.1.folders
              ≡ (write_patch folder (record { name = dto.name; parent_id = q }) w').1.folders))
unfolding update get_owned write_patch
update_worlds u id dto w folder e = elim (Result-cases (new_parent u folder dto.parent_id w).0) [
  | inl (q, good) ↦ inr (q, ground (arith, e, good), ground (arith, e, good))
  | inr (x, bad) ↦ inl (ground (arith, e, bad))
]

module _ (u v : ℕ) (other : v ≢ u) where
  pub create-SameRows :
      (dto : CreateFolderDto) (id now : ℕ) (w : World) → SameRows v w (create u dto id now w).1
  create-SameRows dto id now w =
      let (d, f) = create_tables u dto id now w in
      (
        documents_of_become v (create u dto id now w).1 d,
        elim f [
          | inl same ↦ folders_of_become v (create u dto id now w).1 same
          | inr more ↦
              folders_of_become v (create u dto id now w).1 more
              ∙ find_many-insert_row (λ f. f.user_id == v) (new_folder u dto id now) w.folders
                  (ground arith)
        ],
      )

  write_patch-SameRows :
      (folder : Folder) (patch : FolderPatch) (w : World)
      → folder.user_id ≡ u
      → Memᴰ folder w.folders
      → UniqueIds w.folders
      → SameRows v w (write_patch folder patch w).1
  write_patch-SameRows folder patch w mine here ids =
      let (d, f) = write_patch_tables folder patch w in
      (
        documents_of_become v (write_patch folder patch w).1 d,
        elim f [
          | inl same ↦ folders_of_become v (write_patch folder patch w).1 same
          | inr written ↦
              folders_of_become v (write_patch folder patch w).1 written
              ∙ find_many-update_many (λ f. f.user_id == v) (λ f. f.id == folder.id)
                  (apply_patch patch) w.folders
                  (λ x m h.
                    let same : x ≡ folder = ids x folder m here (ground arith) in
                    let owner : x.user_id ≡ u = ap (λ (f : Folder). f.user_id) same ∙ mine in
                    ground (arith, owner))
                  (λ x. refl)
        ],
      )

  pub update-SameRows :
      (id : ℕ) (dto : FolderPatch) (w : World)
      → UniqueIds w.folders
      → SameRows v w (update u id dto w).1
  update-SameRows id dto w ids = elim (Option-cases (find_first (owned u id) w.folders)) [
    | inl e ↦
        let (d, f) = update_refused_tables u id dto w e in
        (documents_of_become v (update u id dto w).1 d, folders_of_become v (update u id dto w).1 f)
    | inr (folder, e) ↦ elim (update_worlds u id dto w folder e) [
      | inl same ↦ (
        documents_of_become v (update u id dto w).1 same.0,
        folders_of_become v (update u id dto w).1 same.1,
      )
      | inr (q, d, f) ↦
          let w' : World = (new_parent u folder dto.parent_id w).1 in
          let (pd, pf) = new_parent_tables u folder dto.parent_id w in
          let holds = find_first-holds (owned u id) w.folders folder e in
          let here : Memᴰ folder w'.folders =
            subst (λ fs. Memᴰ folder fs) (sym pf)
              (find_first-Mem (owned u id) w.folders folder e) in
          let (rd, rf) =
            write_patch-SameRows folder (record { name = dto.name; parent_id = q }) w'
              (ground arith) here (subst (λ fs. UniqueIds fs) (sym pf) ids) in
          (
            documents_of_become v (update u id dto w).1 d ∙ rd ∙ documents_of_become v w' pd,
            folders_of_become v (update u id dto w).1 f ∙ rf ∙ folders_of_become v w' pf,
          )
    ]
  ]

  pub remove-SameRows : (id : ℕ) (w : World) → SameRows v w (remove u id w).1
  remove-SameRows id w = elim (Option-cases (find_first (owned u id) w.folders)) [
    | inl e ↦
        let (d, f) = remove_refused_tables u id w e in
        (documents_of_become v (remove u id w).1 d, folders_of_become v (remove u id w).1 f)
    | inr (folder, e) ↦ elim (remove_tables u id w folder e) [
      | inl same ↦ (
        documents_of_become v (remove u id w).1 same.0,
        folders_of_become v (remove u id w).1 same.1,
      )
      | inr gone ↦ (
        documents_of_become v (remove u id w).1 gone.0
            ∙ find_many-update_many (λ d. d.user_id == v) (filed u folder.id) emptied w.documents
                (λ x m h. ground arith) (λ x. refl),
        folders_of_become v (remove u id w).1 gone.1
            ∙ find_many-delete_many (λ f. f.user_id == v) (owned u folder.id)
                (update_many (child u folder.id) (λ f. record f { parent_id = folder.parent_id })
                  w.folders)
                (λ x h. ground arith)
            ∙ find_many-update_many (λ f. f.user_id == v) (child u folder.id)
                (λ f. record f { parent_id = folder.parent_id }) w.folders (λ x m h. ground arith)
                (λ x. refl),
      )
    ]
  ]

-- A request of a user to the folders, refused or not, leaves the folders and the documents of every
-- other user as they were; provided that no two folders have the same id.
pub after-SameRows :
    (u v : ℕ) (r : FolderRequest) (w : World)
    → v ≢ u
    → UniqueIds w.folders
    → SameRows v w (after u r w)
after-SameRows u v (creates dto id now) w other ids = create-SameRows u v other dto id now w
after-SameRows u v (updates id dto) w other ids = update-SameRows u v other id dto w ids
after-SameRows u v (removes id) w other ids = remove-SameRows u v other id w
