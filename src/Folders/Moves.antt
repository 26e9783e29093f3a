-- ===== src/Folders/Moves.antt =====
-- What a rename or a move of FoldersService.update (backend/src/folders/folders.service.ts) does to
-- the shape of the user's folders, over the table alone.
use docuai.Base.{
  subst, ℕ, zero, suc, ◌+◌, ◌≤◌, ◌<◌, ◌≡◌, refl, ◌≢◌, ◌⊎◌, inl, inr, true, false, none, some, List,
  arith, ◌==◌, if◌then◌else◌, any, Option-cases, Bool-cases, ==→eq,
}
use docuai.Table.{find_first, update_many}
use docuai.Table.Laws.{find_first-update_many}
use docuai.Schema.{Folder}
use docuai.Folders.{owned, FolderPatch, apply_patch, chain_from, subtree_height, max_folder_depth}
use docuai.Folders.Forest.{
  Rooted, root, below, Below, itself, inside, IsForest, find-id, Below-lt-height,
}

module _ (u : ℕ) (fs : List Folder) (top : ℕ) (patch : FolderPatch) where
  -- The table after the update by id.
  abbrev pub patched : List Folder
  patched = update_many (λ f. f.id == top) (apply_patch patch) fs

  find-patched :
      (id : ℕ)
      → find_first (owned u id) patched ≡ elim (find_first (owned u id) fs) [
        | none ↦ none
        | some f ↦ some (if f.id == top then apply_patch patch f else f)
      ]
  find-patched id = find_first-update_many (owned u id) _ (apply_patch patch) fs (λ f _. refl)

  find-patched_ne :
      (id : ℕ) (f : Folder)
      → find_first (owned u id) fs ≡ some f
      → id ≢ top
      → find_first (owned u id) patched ≡ some f
  find-patched_ne id f e ne = ground (arith, find-patched id, find-id u fs id f e)

  pub find-patched_self :
      (f : Folder)
      → find_first (owned u top) fs ≡ some f
      → find_first (owned u top) patched ≡ some (apply_patch patch f)
  find-patched_self f e = ground (arith, find-patched top, find-id u fs top f e)

  patched-find :
      (id : ℕ) (f : Folder)
      → find_first (owned u id) patched ≡ some f
      → (g : Folder) × (find_first (owned u id) fs ≡ some g)
  patched-find id f e = elim (Option-cases (find_first (owned u id) fs)) [
    | inl missing ↦ absurd (ground (arith, find-patched id))
    | inr found ↦ found
  ]

  -- A folder whose chain avoids the updated one keeps its place.
  pub Rooted-avoid :
      {k id : ℕ} (n : ℕ)
      → Rooted u fs k id
      → k < n
      → any (λ a. a == top) (chain_from u fs n id) ≡ false
      → Rooted u patched k id
  unfolding chain_from
  Rooted-avoid zero r h avoid = absurd (omega arith)
  Rooted-avoid {id = id} (suc n) (root f e up) h avoid =
      root f (find-patched_ne id f e (ground (arith, find-id u fs id f e))) up
  Rooted-avoid {id = id} (suc n) (below f p e up r) h avoid =
      below f p (find-patched_ne id f e (ground (arith, find-id u fs id f e))) up
        (Rooted-avoid n r (omega arith) (ground arith))

  module _ (same : patch.parent_id ≡ none) where
    -- A rename moves nothing.
    Rooted-rename : {k id : ℕ} → Rooted u fs k id → Rooted u patched k id
    Rooted-rename {id = id} (root f e up) = elim (Bool-cases (f.id == top)) [
      | inl t ↦ root (apply_patch patch f) (ground (arith, find-patched id)) (ground arith)
      | inr o ↦ root f (ground (arith, find-patched id)) up
    ]
    Rooted-rename {id = id} (below f p e up r) = elim (Bool-cases (f.id == top)) [
      | inl t ↦
          below (apply_patch patch f) p (ground (arith, find-patched id)) (ground arith)
            (Rooted-rename r)
      | inr o ↦ below f p (ground (arith, find-patched id)) up (Rooted-rename r)
    ]

    pub rename-IsForest : IsForest u fs → IsForest u patched
    rename-IsForest forest id f e =
        let (g, e') = patched-find id f e in
        let (k, h, r) = forest id g e' in (k, h, Rooted-rename r)

  -- With the moved folder at its new place under `depth` ancestors, the rest follows.
  module _ (depth : ℕ) (arrived : Rooted u patched depth top) where
    -- The moved folder itself, under either of its names.
    Rooted-top :
        {id : ℕ} (f : Folder)
        → find_first (owned u id) fs ≡ some f
        → (id == top) ≡ true
        → Below u fs top 0 id × Rooted u patched (depth + 0) id
    Rooted-top {id} f e t =
        let same : id ≡ top = ==→eq id top t in
        let level : depth ≡ depth + 0 = omega arith in
        rw same (itself f (rw same at e), subst (λ m. Rooted u patched m top) level arrived)

    Rooted-move :
        {k id : ℕ}
        → Rooted u fs k id
        → Rooted u patched k id
          ⊎ ((j : ℕ) × (j ≤ k) × Below u fs top j id × Rooted u patched (depth + j) id)
    Rooted-move {id = id} (root f e up) = elim (Bool-cases (id == top)) [
      | inl t ↦ let (b, r) = Rooted-top f e t in inr (0, omega arith, b, r)
      | inr o ↦ inl (root f (find-patched_ne id f e (ground arith)) up)
    ]
    Rooted-move {k = suc k} {id = id} (below f p e up r) = elim (Bool-cases (id == top)) [
      | inl t ↦ let (b, r') = Rooted-top f e t in inr (0, omega arith, b, r')
      | inr o ↦ elim (Rooted-move r) [
        | inl kept ↦ inl (below f p (find-patched_ne id f e (ground arith)) up kept)
        | inr (j, le, b, r') ↦ inr (
          suc j,
          omega arith,
          inside f p e up b,
          let level : suc (depth + j) ≡ depth + suc j = omega arith in
              let up' = below f p (find-patched_ne id f e (ground arith)) up r' in
              subst (λ m. Rooted u patched m id) level up',
        )
      ]
    ]

    pub move-IsForest :
        depth + subtree_height u fs top ≤ max_folder_depth → IsForest u fs → IsForest u patched
    move-IsForest fits forest id f e =
        let (g, e') = patched-find id f e in
        let (k, h, r) = forest id g e' in
        elim (Rooted-move r) [
          | inl kept ↦ (k, h, kept)
          | inr (j, le, b, r') ↦
              (depth + j, omega (arith, Below-lt-height u fs {k = j} (omega arith) b), r')
        ]
