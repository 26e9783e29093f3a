-- ===== src/Folders/Removal.antt =====
-- What FoldersService.remove (backend/src/folders/folders.service.ts) does to the shape of the
-- user's folders, over the table alone.
use docuai.Base.{
  ◌∙◌, ◌<◌, ◌⊎◌, ℕ, suc, ◌≤◌, ◌≡◌, refl, sym, ◌≢◌, inl, inr, none, some, List, arith, ◌==◌,
  if◌then◌else◌, Option-cases, Bool-cases, subst,
}
use docuai.Table.{find_first, update_many, delete_many}
use docuai.Table.Laws.{
  find_first-update_many, find_first-delete_many, find_first-delete_many_self, find_first-holds,
}
use docuai.Schema.{Folder}
use docuai.Folders.{owned, child}
use docuai.Folders.Forest.{Rooted, root, below, IsForest, find-id, Rooted-unique}

module _ (u : ℕ) (fs : List Folder) (folder : Folder) where
  abbrev pub reparent : Folder → Folder
  reparent f = record f { parent_id = folder.parent_id }

  abbrev pub without : List Folder
  without = delete_many (owned u folder.id) (update_many (child u folder.id) reparent fs)

  find-without_self : find_first (owned u folder.id) without ≡ none
  find-without_self = find_first-delete_many_self (owned u folder.id) _

  find-without :
      (id : ℕ)
      → id ≢ folder.id
      → find_first (owned u id) without ≡ elim (find_first (owned u id) fs) [
        | none ↦ none
        | some f ↦ some (if child u folder.id f then reparent f else f)
      ]
  find-without id ne =
      find_first-delete_many (owned u id) (owned u folder.id) _ (λ x h. ground arith)
      ∙ find_first-update_many (owned u id) (child u folder.id) reparent fs (λ f _. refl)

  without-find :
      (id : ℕ) (f : Folder)
      → id ≢ folder.id
      → find_first (owned u id) without ≡ some f
      → (g : Folder) × (find_first (owned u id) fs ≡ some g)
  without-find id f ne e = elim (Option-cases (find_first (owned u id) fs)) [
    | inl missing ↦ absurd (ground (arith, find-without id ne))
    | inr found ↦ found
  ]

  module _ (here : find_first (owned u folder.id) fs ≡ some folder) where
    -- What is left of the place of a folder: the deleted one leaves its parent's.
    Left : ℕ → ℕ → Type 0
    Left k id =
        (id ≢ folder.id → (j : ℕ) × (j ≤ k) × Rooted u without j id)
        × (id ≡ folder.id
            → (folder.parent_id ≡ none)
              ⊎ ((q : ℕ) × (folder.parent_id ≡ some q) × (j : ℕ) × (j < k) × Rooted u without j q))

    -- A child of the deleted folder takes that folder's place.
    below-Left :
        {k id : ℕ} (f : Folder) (p : ℕ)
        → find_first (owned u id) fs ≡ some f
        → f.parent_id ≡ some p
        → Left k p
        → id ≢ folder.id
        → (j : ℕ) × (j ≤ suc k) × Rooted u without j id
    unfolding Left
    below-Left {id = id} f p e up left ne = elim (Bool-cases (p == folder.id)) [
      | inl t ↦ elim (left.1 (ground arith)) [
        | inl top ↦ (
          0,
          omega arith,
          root (reparent f)
              (ground (
                arith,
                find-without id ne,
                find-id u fs id f e,
                find_first-holds (owned u id) fs f e,
              ))
              top,
        )
        | inr (q, up', j, lt, r) ↦ (
          suc j,
          omega arith,
          below (reparent f) q
              (ground (arith, find-without id ne, find_first-holds (owned u id) fs f e)) up' r,
        )
      ]
      | inr o ↦
          let (j, le, r) = left.0 (ground arith) in
          (suc j, omega arith, below f p (ground (arith, find-without id ne)) up r)
    ]

    -- The other folders stay rooted, no deeper than before.
    Rooted-Left : {k id : ℕ} → Rooted u fs k id → Left k id
    unfolding Left
    Rooted-Left {id = id} (root f e up) = (
      λ ne. (0, omega arith, root f (ground (arith, find-without id ne)) up),
      λ same. inl (ground arith),
    )
    Rooted-Left {k = suc k} {id = id} (below f p e up r) =
        let left = Rooted-Left r in
        (
          below-Left f p e up left,
          λ same.
              let mine : folder.parent_id ≡ some p = ground arith in
              let apart : p ≢ folder.id = λ t. absurd (
                omega (
                  arith,
                  Rooted-unique u fs r
                      (subst (λ x. Rooted u fs (suc k) x) (same ∙ sym t) (below f p e up r)),
                )) in
              let (j, le, r') = left.0 apart in inr (p, mine, j, omega arith, r'),
        )

    pub remove-IsForest : IsForest u fs → IsForest u without
    unfolding Left
    remove-IsForest forest id f e =
        let ne : id ≢ folder.id = λ same. ground (arith, find-without_self) in
        let (g, e') = without-find id f ne e in
        let (k, h, r) = forest id g e' in
        let (j, le, r') = (Rooted-Left r).0 ne in (j, omega arith, r')
