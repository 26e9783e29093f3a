-- ===== src/Folders/Creation.antt =====
-- What FoldersService.create (backend/src/folders/folders.service.ts) does to the shape of the
-- user's folders, over the table alone.
use docuai.Base.{
  ℕ, suc, ◌<◌, ◌≡◌, sym, inl, inr, none, some, List, arith, ◌==◌, Option-cases, subst,
}
use docuai.Table.{find_first, insert_row}
use docuai.Table.Laws.{find_first-insert_row, find_first-none}
use docuai.Schema.{Folder}
use docuai.Folders.{owned, max_folder_depth}
use docuai.Folders.Forest.{Rooted, root, below, IsForest}

module _ (u : ℕ) (fs : List Folder) (folder : Folder) where
  find-insert_row :
      (id : ℕ) (f : Folder)
      → find_first (owned u id) fs ≡ some f
      → find_first (owned u id) (insert_row folder fs) ≡ some f
  find-insert_row id f e = ground (arith, find_first-insert_row (owned u id) folder fs)

  Rooted-insert_row : {k id : ℕ} → Rooted u fs k id → Rooted u (insert_row folder fs) k id
  Rooted-insert_row {id = id} (root f e up) = root f (find-insert_row id f e) up
  Rooted-insert_row {id = id} (below f p e up r) =
      below f p (find-insert_row id f e) up (Rooted-insert_row r)

  -- A new folder with a fresh id, at the top or under a parent that leaves it room.
  module _ (mine : folder.user_id ≡ u) (fresh : find_first (λ f. f.id == folder.id) fs ≡ none) where
    find-new : find_first (owned u folder.id) (insert_row folder fs) ≡ some folder
    find-new = ground (
      arith,
      find_first-insert_row (owned u folder.id) folder fs,
      find_first-none (λ f. f.id == folder.id) (owned u folder.id) fs (λ x h. ground arith),
    )

    insert_row-IsForest :
        (k : ℕ)
        → k < max_folder_depth
        → Rooted u (insert_row folder fs) k folder.id
        → IsForest u fs
        → IsForest u (insert_row folder fs)
    insert_row-IsForest k h r forest id f e = elim (Option-cases (find_first (owned u id) fs)) [
      | inl missing ↦
          let same : id ≡ folder.id =
            ground (arith, find_first-insert_row (owned u id) folder fs) in
          (k, h, subst (λ x. Rooted u (insert_row folder fs) k x) (sym same) r)
      | inr (g, e') ↦ let (j, h', r') = forest id g e' in (j, h', Rooted-insert_row r')
    ]

    pub create_root-IsForest :
        folder.parent_id ≡ none → IsForest u fs → IsForest u (insert_row folder fs)
    create_root-IsForest up = insert_row-IsForest 0 (omega arith) (root folder find-new up)

    pub create_below-IsForest :
        {k : ℕ} (p : ℕ)
        → folder.parent_id ≡ some p
        → Rooted u fs k p
        → suc k < max_folder_depth
        → IsForest u fs
        → IsForest u (insert_row folder fs)
    create_below-IsForest {k} p up r h =
        insert_row-IsForest (suc k) h (below folder p find-new up (Rooted-insert_row r))
