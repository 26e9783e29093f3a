-- ===== src/Ocr.antt =====
-- The OCR part of the backend (backend/src/ocr): jobs, requests, the worker, formats of images.
pub mod Jobs
pub mod Requests
pub mod Worker
pub mod FileSignature
pub mod Tesseract
pub mod Poppler
pub mod Commands
pub mod Queue
pub mod Languages
pub mod Processing
pub mod Extraction
pub mod PageText
