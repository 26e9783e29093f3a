-- ===== src/Folders/Forest.antt =====
-- The shape of a user's folders in backend/src/folders/folders.service.ts: every folder leads to a
-- root through parents of the same user, at a bounded depth. How the recursive queries read it.
use docuai.Base.{
  sym, subst, ap, ℕ, zero, suc, ◌<◌, ◌≡◌, refl, inl, inr, true, false, ◌&&◌, none, some, List, [],
  ◌∷◌, ◌++◌, Memᴰ, arith, ◌==◌, length, is_empty, Option-cases, holds_id,
}
use docuai.Table.{find_first, find_many}
use docuai.Table.Laws.{find_first-holds, find_first-Mem, Mem-find_many}
use docuai.Schema.{Folder}
use docuai.Folders.{
  owned, chain_from, children_of, levels, subtree_height, max_folder_depth, recursion_limit,
}

module _ (u : ℕ) (fs : List Folder) where
  -- A folder of the user with that many proper ancestors, all of them the user's, up to a root.
  pub data Rooted : ℕ → ℕ → Type 0 where
    root :
        {id : ℕ} (f : Folder)
        → find_first (owned u id) fs ≡ some f
        → f.parent_id ≡ none
        → Rooted zero id
    below :
        {k id : ℕ} (f : Folder) (p : ℕ)
        → find_first (owned u id) fs ≡ some f
        → f.parent_id ≡ some p
        → Rooted k p
        → Rooted (suc k) id

  -- Every folder of the user is rooted, at a depth of at most MAX_FOLDER_DEPTH.
  abbrev pub IsForest : Type 0
  IsForest =
      (id : ℕ) (f : Folder)
      → find_first (owned u id) fs ≡ some f
      → (k : ℕ) × (k < max_folder_depth) × Rooted k id

  pub Rooted-find : {k id : ℕ} → Rooted k id → (f : Folder) × (find_first (owned u id) fs ≡ some f)
  Rooted-find (root f e n) = (f, e)
  Rooted-find (below f p e n r) = (f, e)

  -- The row that a find by id returns has that id.
  pub find-id : (id : ℕ) (f : Folder) → find_first (owned u id) fs ≡ some f → f.id ≡ id
  find-id id f e = ground (arith, find_first-holds (owned u id) fs f e)

  -- A found row is found again under its own id.
  pub find-here :
      (id : ℕ) (f : Folder)
      → find_first (owned u id) fs ≡ some f
      → find_first (owned u f.id) fs ≡ some f
  find-here id f e = subst (λ x. find_first (owned u x) fs ≡ some f) (sym (find-id id f e)) e

  -- A folder has one number of ancestors.
  pub Rooted-unique : {k j id : ℕ} → Rooted k id → Rooted j id → k ≡ j
  Rooted-unique (root f e up) (root g e' up') = refl
  Rooted-unique (root f e up) (below g q e' up' s) = absurd (cc)
  Rooted-unique (below f p e up r) (root g e' up') = absurd (cc)
  Rooted-unique (below f p e up r) (below {k = j} g q e' up' s) =
      let same : q ≡ p = cc in ap suc (Rooted-unique r (subst (λ x. Rooted j x) same s))

  -- With enough levels the query returns the folder and all of its ancestors.
  pub Rooted-length_chain :
      {k id : ℕ} (n : ℕ) → Rooted k id → k < n → length (chain_from u fs n id) ≡ suc k
  unfolding chain_from
  Rooted-length_chain zero r h = absurd (omega arith)
  Rooted-length_chain (suc n) (root f e none_up) h = ground arith
  Rooted-length_chain (suc n) (below f p e up r) h =
      ground (arith, Rooted-length_chain n r (omega arith))

  -- A chain is empty only for an id that is no folder of the user.
  pub chain-find :
      (n id : ℕ)
      → is_empty (chain_from u fs (suc n) id) ≡ false
      → (f : Folder) × (find_first (owned u id) fs ≡ some f)
  unfolding chain_from
  chain-find n id h = elim (Option-cases (find_first (owned u id) fs)) [
    | inl missing ↦ absurd (ground arith)
    | inr found ↦ found
  ]

  -- A folder that many levels under the folder `top`, the folder itself at 0.
  pub data Below (top : ℕ) : ℕ → ℕ → Type 0 where
    itself : (f : Folder) → find_first (owned u top) fs ≡ some f → Below top zero top
    inside :
        {k id : ℕ} (f : Folder) (p : ℕ)
        → find_first (owned u id) fs ≡ some f
        → f.parent_id ≡ some p
        → Below top k p
        → Below top (suc k) id

  -- The rows that the query of the subtree holds, that many levels below the given one.
  level_from : List Folder → ℕ → List Folder
  level_from level zero = level
  level_from level (suc k) = level_from (children_of u fs level) k

  level_from-children_of :
      (level : List Folder) (k : ℕ)
      → level_from (children_of u fs level) k ≡ children_of u fs (level_from level k)
  unfolding level_from
  level_from-children_of level zero = refl
  level_from-children_of level (suc k) = level_from-children_of (children_of u fs level) k

  Mem-append_left : (f : Folder) (xs ys : List Folder) → Memᴰ f xs → Memᴰ f (xs ++ ys)
  Mem-append_left f [] ys m = elim m [ ]
  Mem-append_left f (x ∷ xs) ys (Memᴰ.head e) = Memᴰ.head e
  Mem-append_left f (x ∷ xs) ys (Memᴰ.tail m) = Memᴰ.tail (Mem-append_left f xs ys m)

  Mem-append_right : (f : Folder) (xs ys : List Folder) → Memᴰ f ys → Memᴰ f (xs ++ ys)
  Mem-append_right f [] ys m = m
  Mem-append_right f (x ∷ xs) ys m = Memᴰ.tail (Mem-append_right f xs ys m)

  -- The join finds each folder of the user whose parent stands in the level.
  Mem-children_of :
      (f s : Folder) (level : List Folder)
      → Memᴰ s level
      → Memᴰ f fs
      → (holds_id f.parent_id s.id && f.user_id == u) ≡ true
      → Memᴰ f (children_of u fs level)
  unfolding children_of
  Mem-children_of f s [] m h t = elim m [ ]
  Mem-children_of f s (x ∷ level) (Memᴰ.head e) h t =
      Mem-append_left f _ _ (Mem-find_many _ fs h (rw (← e) t))
  Mem-children_of f s (x ∷ level) (Memᴰ.tail m) h t =
      Mem-append_right f _ _ (Mem-children_of f s level m h t)

  Below-Mem :
      {top k id : ℕ}
      → Below top k id
      → (s : Folder) × Memᴰ s (level_from (find_many (owned u top) fs) k) × (s.id ≡ id)
  unfolding level_from
  Below-Mem {top} (itself f e) = (
    f,
    Mem-find_many _ fs (find_first-Mem _ fs f e) (find_first-holds (owned u top) fs f e),
    find-id top f e,
  )
  Below-Mem {top} {id = id} (inside {k} f p e up b) =
      let (s, m, same) = Below-Mem b in
      let t : owned u id f ≡ true = find_first-holds (owned u id) fs f e in
      (
        f,
        rw (level_from-children_of (find_many (owned u top) fs) k)
            (Mem-children_of f s _ m (find_first-Mem _ fs f e) (ground arith)),
        find-id id f e,
      )

  level_from_nil : (k : ℕ) → level_from [] k ≡ []
  unfolding level_from children_of
  level_from_nil zero = refl
  level_from_nil (suc k) = level_from_nil k

  -- Every level that is not empty is counted.
  levels-level_from :
      (level : List Folder) {f : Folder} (k n : ℕ)
      → k < n
      → Memᴰ f (level_from level k)
      → k < levels u fs n level
  unfolding levels level_from
  levels-level_from level k zero h m = absurd (omega arith)
  levels-level_from [] k (suc n) h m = elim (rw (level_from_nil k) at m) [ ]
  levels-level_from (x ∷ level) zero (suc n) h m = omega arith
  levels-level_from (x ∷ level) (suc k) (suc n) h m =
      omega (arith, levels-level_from (children_of u fs (x ∷ level)) k n (omega arith) m)

  -- No folder is further below another than the height of that one's subtree.
  pub Below-lt-height :
      {top k id : ℕ} → k < recursion_limit → Below top k id → k < subtree_height u fs top
  unfolding subtree_height
  Below-lt-height {top} {k} h b =
      let (s, m, _) = Below-Mem b in levels-level_from _ k recursion_limit h m
