-- ===== src/Lib.antt =====
-- docuai: verification of the backend of DocuAI (backend/src), a service that keeps documents in
-- folders, stores their files in an object storage, and extracts their text in background jobs.
--
-- The parts and how they interact. FoldersService and DocumentsService keep the folders and the
-- metadata of documents of a user; DocumentFilesService takes a document from DRAFT through UPLOADING
-- to READY, with the storage; OcrService creates a job for a READY document, OcrWorkerService
-- processes it, and OcrJobService is the table that both share; AuthService opens and closes the
-- sessions of users. All of them share one database, and a request waits for it often, so that other
-- requests run in between.
--
-- The model. A table is the list of its rows, a WHERE clause a Boolean test, `updateMany` a map over
-- the rows that pass it (Table.antt). World.antt has the tables and the log of security events; a
-- method is an Action, a function from a world to a result and a world. A throw keeps what was
-- written, and a transaction undoes it. What other requests do in the gap before a conditional write
-- is a function on worlds, the argument `others`; the theorems hold for every such function that
-- meets the stated condition. Ids and times are natural numbers that the caller draws. A text whose
-- characters matter is a list of UTF-16 units (Base/Texts.antt).
--
--   Base.antt             numbers, lists, options and results, tests into Bool
--   Table.antt            tables; Table/Laws.antt what a read finds after a write
--   Schema.antt           backend/prisma/schema.prisma
--   World.antt            the shared state; World/Keeps.antt properties that actions keep;
--                         World/Rows.antt the rows of one user
--   Errors.antt           backend/src/common/exceptions/app.exception.ts
--   Errors/Filter.antt    backend/src/common/filters/http-exception.filter.ts
--   Storage.antt          backend/src/storage/storage.provider.ts
--   Storage/S3.antt       backend/src/storage/s3/s3-storage.provider.ts; Storage/S3/Contract.antt has the
--                         map that it implements
--   Config.antt           backend/src/config/configuration.ts: parse_duration_seconds, to_bool and
--                         empty_to_null
--   Folders.antt          backend/src/folders/folders.service.ts: create, update, remove,
--                         assert_valid_move, ancestor_chain, subtree_height
--   Documents.antt        backend/src/documents/documents.service.ts: create, update, remove, get_owned
--   Documents/Listing.antt    list of the same service, over Table/Paging.antt
--   Documents/FileName.antt   backend/src/documents/file-name.ts
--   Documents/FileName/Disposition.antt   attachment_content_disposition of the same file
--   Documents/FileChecks.antt   the data and checks of backend/src/documents/document-files.service.ts
--   Documents/Files.antt  its operations: create_upload_url, complete_upload, create_download_url
--   Auth.antt             backend/src/auth/auth.service.ts: register, login, refresh, logout
--   Ocr/Jobs.antt         backend/src/ocr/ocr-job.service.ts; finalize is in Ocr/Jobs/Finalize.antt
--   Ocr/Requests.antt     backend/src/ocr/ocr.service.ts: request, retry
--   Ocr/Requests/Results.antt status and results of the same service
--   Ocr/Worker.antt       backend/src/ocr/ocr-worker.service.ts: process, run, handle_failure
--   Ocr/Worker/Download.antt  its download stays within the limit
--   Ocr/Worker/Reconcile.antt reconcile of the same service
--   Ocr/Queue.antt        backend/src/ocr/ocr-queue.service.ts, over an interface for BullMQ
--   Ocr/Languages.antt    backend/src/ocr/ocr-languages.service.ts
--   Ocr/Processing.antt   the failures of a run, of backend/src/ocr/ocr.errors.ts
--   Ocr/Extraction.antt   backend/src/ocr/ocr-extraction.service.ts: its data and what it does with one
--                         page; Ocr/Extraction/Run.antt has inspect and extract
--   Ocr/Commands.antt     backend/src/ocr/tools/run-command.ts
--   Ocr/Poppler.antt      backend/src/ocr/tools/poppler.service.ts: the output of its commands
--   Ocr/Tesseract.antt    backend/src/ocr/providers/tesseract-ocr.provider.ts
--   Ocr/PageText.antt     backend/src/ocr/tools/text.ts
--   Ocr/FileSignature.antt    backend/src/ocr/tools/file-signature.ts
--
-- Bounds and fuel. The recursive queries on folders stop after RECURSION_LIMIT steps in the source, and
-- so do they here; chains of at most MAX_FOLDER_DEPTH folders are far below. The scan of JPEG segments
-- has one step of fuel more than there are bytes, and each step moves forward.
--
-- Parameters: Unicode normalisation and lower case, hashes of passwords and tokens, localeCompare, the
-- order and the substring search of the database in listings, the answers of the SDK for the object storage, BullMQ, and the tools that read files. Not modelled:
-- the list of folders, controllers and their validation, serializers, the other readers and the loaders of the configuration, health
-- checks and the wiring of the application; logging, messages
-- and the metadata of sessions and events are left out.
pub mod Base
pub mod Table
pub mod Schema
pub mod World
pub mod Errors
pub mod Storage
pub mod Config
pub mod Folders
pub mod Documents
pub mod Auth
pub mod Ocr
