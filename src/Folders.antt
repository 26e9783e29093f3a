-- ===== src/Folders.antt =====
-- backend/src/folders/folders.service.ts and folders.errors.ts: the folder hierarchy of a user.
-- A recursive query reads the table level by level; its bound RECURSION_LIMIT is the fuel.
pub mod Forest
pub mod Owned
pub mod Contents
pub mod Moves
pub mod Removal
pub mod Creation
pub mod Hierarchy
pub mod History
pub mod Isolated
mod Tests
use Prim.Native.String.{String}
use docuai.Base.{
  ℕ, zero, suc, ◌+◌, Bool, true, false, not, ◌&&◌, Option, none, some, List, [], ◌∷◌, ◌++◌, ltb,
  ◌==◌, if◌then◌else◌, is_some, get_or_else, holds_id, length, any, is_empty,
}
use docuai.Table.{find_first, count_where, find_many, update_many, delete_many, insert_row}
use docuai.Schema.{Folder, Document}
use docuai.Errors.{AppException, ErrorCode}
use docuai.World.{
  World, Action, ◌>>=◌, ◌>>◌, pure, gets, or_throw, transaction, modify, throw_if, record_event,
  SecurityEventType,
}

abbrev pub max_folder_depth : ℕ
max_folder_depth = 10

abbrev pub recursion_limit : ℕ
recursion_limit = 64

abbrev pub folder_not_found : AppException
folder_not_found = record { status = 404; code = ErrorCode.folder_not_found }

abbrev pub folder_self_parent : AppException
folder_self_parent = record { status = 400; code = ErrorCode.invalid_folder }

abbrev pub folder_cycle : AppException
folder_cycle = record { status = 400; code = ErrorCode.folder_cycle_detected }

abbrev pub folder_depth_exceeded : AppException
folder_depth_exceeded = record { status = 400; code = ErrorCode.folder_depth_exceeded }

-- `where: { id, userId }`
abbrev pub owned : ℕ → ℕ → Folder → Bool
owned u id f = f.id == id && f.user_id == u

module _ (u : ℕ) (fs : List Folder) where
  -- The recursive query of `ancestorChain` from a folder, for that many levels.
  pub chain_from : ℕ → ℕ → List ℕ
  chain_from zero id = []
  chain_from (suc n) id = elim (find_first (owned u id) fs) [
    | none ↦ []
    | some f ↦ f.id ∷ (elim f.parent_id [ none ↦ [] | some p ↦ chain_from n p ])
  ]

  pub ancestor_chain : ℕ → List ℕ
  ancestor_chain id = chain_from recursion_limit id

  -- One step of the query of `subtreeHeight`: `JOIN sub s ON f.parent_id = s.id`.
  pub children_of : List Folder → List Folder
  children_of [] = []
  children_of (s ∷ level) =
      find_many (λ f. holds_id f.parent_id s.id && f.user_id == u) fs ++ children_of level

  -- `MAX(depth)` is the number of levels that are not empty.
  pub levels : ℕ → List Folder → ℕ
  levels zero level = 0
  levels (suc n) level = elim (is_empty level) [
    | true ↦ 0
    | false ↦ suc (levels n (children_of level))
  ]

  pub subtree_height : ℕ → ℕ
  subtree_height id = levels recursion_limit (find_many (owned u id) fs)

not_found : ℕ → ℕ → Action AppException AppException
not_found u id = do
  foreign ← gets (λ w. count_where (λ f. f.id == id) w.folders)
  if ltb 0 foreign then record_event SecurityEventType.folder_access_denied u else pure tt
  pure folder_not_found

pub get_owned : ℕ → ℕ → Action AppException Folder
get_owned u id = do
  folder ← gets (λ w. find_first (owned u id) w.folders)
  or_throw folder (not_found u id)

pub record CreateFolderDto : Type 0 where
  pub name : String
  pub parent_id : Option ℕ

-- The check of `create` on the new folder's parent.
assert_parent : ℕ → ℕ → Action AppException (Unit {0})
assert_parent u parent = do
  chain ← gets (λ w. ancestor_chain u w.folders parent)
  or_throw (if is_empty chain then none else some tt) (not_found u parent)
  throw_if (ltb max_folder_depth (length chain + 1)) folder_depth_exceeded

-- `id` and `now` are what the database draws for the new row.
abbrev pub new_folder : ℕ → CreateFolderDto → (id now : ℕ) → Folder
new_folder u dto id now = record {
  id = id;
  user_id = u;
  name = dto.name;
  parent_id = dto.parent_id;
  created_at = now;
}

pub create : ℕ → CreateFolderDto → (id now : ℕ) → Action AppException Folder
create u dto id now = do
  folder ← transaction (do
    elim dto.parent_id [ none ↦ pure tt | some parent ↦ assert_parent u parent ]
    modify (λ w. record w { folders = insert_row (new_folder u dto id now) w.folders })
    pure (new_folder u dto id now))
  record_event SecurityEventType.folder_created u
  pure folder

-- The depth of the new parent; the checks that it exists and is no descendant.
parent_depth : ℕ → Folder → Option ℕ → Action AppException ℕ
parent_depth u folder none = pure 0
parent_depth u folder (some parent) = do
  chain ← gets (λ w. ancestor_chain u w.folders parent)
  or_throw (if is_empty chain then none else some tt) (not_found u parent)
  throw_if (any (λ a. a == folder.id) chain) folder_cycle
  pure (length chain)

assert_valid_move : ℕ → Folder → Option ℕ → Action AppException (Unit {0})
unfolding parent_depth
assert_valid_move u folder new_parent = do
  throw_if (holds_id new_parent folder.id) folder_self_parent
  depth ← parent_depth u folder new_parent
  height ← gets (λ w. subtree_height u w.folders folder.id)
  throw_if (ltb max_folder_depth (depth + height)) folder_depth_exceeded

-- An absent field of the request, or of the data of an update, is `none`; `some none` is `null`.
pub record FolderPatch : Type 0 where
  pub name : Option String
  pub parent_id : Option (Option ℕ)

abbrev pub same_parent : Option ℕ → Option ℕ → Bool
same_parent none none = true
same_parent (some a) (some b) = a == b
same_parent _ _ = false

abbrev pub apply_patch : FolderPatch → Folder → Folder
apply_patch data' f = record f {
  name = get_or_else data'.name f.name;
  parent_id = get_or_else data'.parent_id f.parent_id;
}

-- The `parentId` that goes into the data: the validated one, if it changes.
new_parent : ℕ → Folder → Option (Option ℕ) → Action AppException (Option (Option ℕ))
new_parent u current none = pure none
new_parent u current (some p) =
    if same_parent p current.parent_id
    then pure none
    else (do assert_valid_move u current p; pure (some p))

-- `if (Object.keys(data).length === 0) return current;`, else the update by id.
write_patch : Folder → FolderPatch → Action AppException Folder
write_patch current data' =
    if not (is_some data'.name) && not (is_some data'.parent_id) then pure current else (do
      modify (λ w. record w {
        folders = update_many (λ f. f.id == current.id) (apply_patch data') w.folders;
      })
      pure (apply_patch data' current))

pub update : ℕ → ℕ → FolderPatch → Action AppException Folder
update u id dto = do
  folder ← transaction (do
    current ← get_owned u id
    parent ← new_parent u current dto.parent_id
    write_patch current (record { name = dto.name; parent_id = parent }))
  record_event SecurityEventType.folder_updated u
  pure folder

pub record FolderDeletionResult : Type 0 where
  pub id : ℕ
  pub moved_documents : ℕ
  pub promoted_folders : ℕ

-- `where: { folderId: folder.id, userId }`
abbrev pub filed : ℕ → ℕ → Document → Bool
filed u id d = holds_id d.folder_id id && d.user_id == u

-- `where: { parentId: folder.id, userId }`
abbrev pub child : ℕ → ℕ → Folder → Bool
child u id f = holds_id f.parent_id id && f.user_id == u

-- The three writes of `remove`.
unfiled : ℕ → ℕ → World → World
unfiled u id w = record w {
  documents = update_many (filed u id) (λ d. record d { folder_id = none }) w.documents;
}

promoted : ℕ → Folder → World → World
promoted u folder w = record w {
  folders =
      update_many (child u folder.id) (λ f. record f { parent_id = folder.parent_id }) w.folders;
}

deleted : ℕ → ℕ → World → World
deleted u id w = record w { folders = delete_many (owned u id) w.folders }

pub remove : ℕ → ℕ → Action AppException FolderDeletionResult
remove u id = do
  result ← transaction (do
    folder ← get_owned u id
    documents ← gets (λ w. count_where (filed u folder.id) w.documents)
    modify (unfiled u folder.id)
    children ← gets (λ w. count_where (child u folder.id) w.folders)
    modify (promoted u folder)
    count ← gets (λ w. count_where (owned u folder.id) w.folders)
    modify (deleted u folder.id)
    throw_if (not (count == 1)) folder_not_found
    pure (record { id = folder.id; moved_documents = documents; promoted_folders = children }))
  record_event SecurityEventType.folder_deleted u
  pure result
