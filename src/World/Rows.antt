-- ===== src/World/Rows.antt =====
-- The rows of one user in the tables of folders and documents.
use docuai.Base.{ap, ℕ, ◌≡◌, ◌==◌, List, Memᴰ}
use docuai.Table.{find_many}
use docuai.Schema.{Document, Folder}
use docuai.World.{World}

abbrev pub documents_of : ℕ → World → List Document
documents_of v w = find_many (λ d. d.user_id == v) w.documents

abbrev pub folders_of : ℕ → World → List Folder
folders_of v w = find_many (λ f. f.user_id == v) w.folders

-- The user's rows are the same in both worlds.
abbrev pub SameRows : ℕ → World → World → Type 0
SameRows v w w' = (documents_of v w' ≡ documents_of v w) × (folders_of v w' ≡ folders_of v w)

-- The primary key of the table of folders.
abbrev pub UniqueIds : List Folder → Type 0
UniqueIds fs = (f g : Folder) → Memᴰ f fs → Memᴰ g fs → f.id ≡ g.id → f ≡ g

-- Where the tables become others, the user's rows become those of the other tables.
pub documents_of_become :
    (v : ℕ) (w : World) {ds : List Document}
    → w.documents ≡ ds
    → documents_of v w ≡ find_many (λ d. d.user_id == v) ds
documents_of_become v w e = ap (λ ds. find_many (λ (d : Document). d.user_id == v) ds) e

pub folders_of_become :
    (v : ℕ) (w : World) {fs : List Folder}
    → w.folders ≡ fs
    → folders_of v w ≡ find_many (λ f. f.user_id == v) fs
folders_of_become v w e = ap (λ fs. find_many (λ (f : Folder). f.user_id == v) fs) e
