-- ===== src/Ocr/Extraction/Run/Rendering.antt =====
-- The size of a rendered page (renderDpiFor of backend/src/ocr/ocr-extraction.service.ts).
