-- ===== src/Folders/Contents.antt =====
-- What FoldersService.remove (backend/src/folders/folders.service.ts) does to documents.
use docuai.Base.{none}
use docuai.Schema.{Document}
use docuai.World.{World}

abbrev pub emptied : Document → Document
emptied d = record d { folder_id = none }
