-- ===== src/Folders/Tests.antt =====
-- Runs of the folder service, and its theorems at concrete inputs.
use docuai.Schema.{Document, DocumentStatus, Folder}
use docuai.Folders.{
  create, update, remove, not_found, get_owned, assert_parent, assert_valid_move, new_parent,
  write_patch, unfiled, promoted, deleted, ancestor_chain, chain_from, children_of, levels,
  subtree_height, folder_cycle,
}
use docuai.Base.{Option, take, ℕ, ◌≡◌, refl, none, some, List, [], ◌∷◌, err, Memᴰ, ◌∙◌, sym, arith}
use docuai.Table.{find_first, count_where, find_many, update_many, delete_many, insert_row}
use docuai.World.{World}
use docuai.World.Rows.{SameRows, UniqueIds}
use docuai.Folders.Isolated.{after-SameRows}
use docuai.Folders.History.{
  after, FolderRequest, creates, updates, removes, after_all, after_all-IsForest,
}
use docuai.Folders.Forest.{IsForest}

-- Opens every definition of the service.
service : Unit {0}
unfolding create update remove not_found get_owned assert_parent assert_valid_move new_parent
    write_patch unfiled promoted deleted ancestor_chain chain_from children_of levels subtree_height
    find_first count_where find_many update_many delete_many insert_row
service = tt

abbrev empty : World
empty = record {
  folders = [];
  documents = [];
  jobs = [];
  pages = [];
  users = [];
  tokens = [];
  removed_objects = [];
  events = [];
}

abbrev shape : List Folder → List (ℕ × Option ℕ)
shape [] = []
shape (f ∷ fs) = (f.id, f.parent_id) ∷ shape fs

-- 2 in 1, 3 in 2, and 3 moved to the top.
abbrev requests : List FolderRequest
requests =
    creates (record { name = "invoices"; parent_id = none }) 1 100
    ∷ creates (record { name = "2026"; parent_id = some 1 }) 2 101
    ∷ creates (record { name = "march"; parent_id = some 2 }) 3 102
    ∷ updates 3 (record { name = none; parent_id = some none })
    ∷ updates 1 (record { name = none; parent_id = some (some 2) })
    ∷ removes 1
    ∷ []

history_run : shape (after_all 7 requests empty).folders ≡ (2, none) ∷ (3, none) ∷ []
unfolding service
history_run = refl

-- 1 cannot move under 2, which is in it.
cycle_refused :
    (update 7 1
      (record { name = none; parent_id = some (some 2) })
      (after_all 7 (take 3 requests) empty)).0
    ≡ err folder_cycle
unfolding service
cycle_refused = refl

empty-IsForest : IsForest 7 empty.folders
unfolding find_first
empty-IsForest id f e = absurd (cc)

after_all-IsForest_example : IsForest 7 (after_all 7 requests empty).folders
unfolding service
after_all-IsForest_example =
    after_all-IsForest 7 requests empty (refl, (refl, (refl, (tt, (tt, (tt, tt)))))) empty-IsForest

abbrev nested : World
nested = after_all 7 (take 3 requests) empty

-- A document in the folder 2.
abbrev invoice : Document
invoice = record {
  id = 5;
  user_id = 7;
  folder_id = some 2;
  title = "Invoice";
  description = none;
  status = DocumentStatus.draft;
  mime_type = none;
  file_size = none;
  page_count = none;
  storage_key = none;
  original_name = none;
  created_at = 104;
  deleted_at = none;
}

abbrev filled : World
filled = record nested { documents = invoice ∷ [] }

abbrev folder_of : (id user_id : ℕ) → Folder
folder_of id user_id = record {
  id = id;
  user_id = user_id;
  name = "invoices";
  parent_id = none;
  created_at = 3;
}

abbrev shared : World
shared = record empty { folders = folder_of 1 7 ∷ folder_of 2 8 ∷ [] }

shared-UniqueIds : UniqueIds shared.folders
shared-UniqueIds f g (Memᴰ.head a) (Memᴰ.head b) same = a ∙ sym b
shared-UniqueIds f g (Memᴰ.head a) (Memᴰ.tail (Memᴰ.head b)) same = absurd (ground arith)
shared-UniqueIds f g (Memᴰ.tail (Memᴰ.head a)) (Memᴰ.head b) same = absurd (ground arith)
shared-UniqueIds f g (Memᴰ.tail (Memᴰ.head a)) (Memᴰ.tail (Memᴰ.head b)) same = a ∙ sym b
shared-UniqueIds f g (Memᴰ.tail (Memᴰ.tail m)) n same = elim m [ ]
shared-UniqueIds f g m (Memᴰ.tail (Memᴰ.tail n)) same = elim n [ ]

-- User 7 tries to delete a folder of user 8.
after-SameRows_example : SameRows 8 shared (after 7 (removes 2) shared)
after-SameRows_example = after-SameRows 7 8 (removes 2) shared (omega arith) shared-UniqueIds
