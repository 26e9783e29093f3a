-- ===== src/Folders/History.antt =====
-- Histories of requests to FoldersService (backend/src/folders/folders.service.ts). The requests of
-- one user run one after the other, since each holds the user's advisory lock.
use docuai.Base.{ℕ, ◌≡◌, none, List, [], ◌∷◌, ◌==◌}
use docuai.Table.{find_first}
use docuai.World.{World}
use docuai.Folders.{CreateFolderDto, FolderPatch, create, update, remove}
use docuai.Folders.Forest.{IsForest}
use docuai.Folders.Hierarchy.{update-IsForest, remove_keeps_IsForest, create_keeps_IsForest}

-- A request of the user, with what the database draws for it.
pub data FolderRequest : Type 0 where
  creates : CreateFolderDto → (id now : ℕ) → FolderRequest
  updates : (id : ℕ) → FolderPatch → FolderRequest
  removes : (id : ℕ) → FolderRequest

module _ (u : ℕ) where
  abbrev pub after : FolderRequest → World → World
  after (creates dto id now) w = (create u dto id now w).1
  after (updates id dto) w = (update u id dto w).1
  after (removes id) w = (remove u id w).1

  abbrev pub after_all : List FolderRequest → World → World
  after_all [] w = w
  after_all (r ∷ rs) w = after_all rs (after r w)

  -- Ids that the database draws are new.
  abbrev pub DrawsNew : FolderRequest → World → Type 0
  DrawsNew (creates dto id now) w = find_first (λ f. f.id == id) w.folders ≡ none
  DrawsNew _ w = Unit

  abbrev pub AllDrawNew : List FolderRequest → World → Type 0
  AllDrawNew [] w = Unit
  AllDrawNew (r ∷ rs) w = DrawsNew r w × AllDrawNew rs (after r w)

  after-IsForest :
      (r : FolderRequest) (w : World)
      → DrawsNew r w
      → IsForest u w.folders
      → IsForest u (after r w).folders
  after-IsForest (creates dto id now) w fresh forest =
      create_keeps_IsForest u dto id now w fresh forest
  after-IsForest (updates id dto) w fresh forest = update-IsForest u id dto w forest
  after-IsForest (removes id) w fresh forest = remove_keeps_IsForest u id w forest

-- After any requests of a user, refused ones included, every folder of that user has a chain of
-- parents of the same user up to a root, and at most MAX_FOLDER_DEPTH folders stand on it; provided
-- that it was so before, and that new ids are ids of no folder.
pub after_all-IsForest :
    (u : ℕ) (rs : List FolderRequest) (w : World)
    → AllDrawNew u rs w
    → IsForest u w.folders
    → IsForest u (after_all u rs w).folders
after_all-IsForest u [] w fresh forest = forest
after_all-IsForest u (r ∷ rs) w (fresh, later) forest =
    after_all-IsForest u rs (after u r w) later (after-IsForest u r w fresh forest)
