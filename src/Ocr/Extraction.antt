-- ===== src/Ocr/Extraction.antt =====
-- backend/src/ocr/ocr-extraction.service.ts: the pages of a file. The subprocesses, the clock and the
-- file are the tools, one answer for each call that the service can make; a throw of the generator
-- ends the pages that it yields. Lengths on a page are in thousandths of a point, so that the
-- arithmetic of the DPI, which the source does with floats, is exact here.
pub mod Run
pub mod Samples
use docuai.Base.{
  ℕ, zero, suc, ◌+◌, ◌-◌, ◌*◌, ◌/◌, Bool, true, false, not, ◌&&◌, ◌||◌, Option, none, some, List,
  [], ◌∷◌, Text, ltb, leb, ◌==◌, if◌then◌else◌, is_empty, get_or_else, get_elem?, min, max, Result,
  ok, err, same_text,
}
use docuai.Schema.{OcrErrorCode, OcrPageStatus, OcrExtractionMethod}
use docuai.Documents.FileName.{pdf_type, jpeg_type, png_type, webp_type}
use docuai.Ocr.FileSignature.{
  Bytes, DetectedFormat, ImageDimensions, detect_format, read_image_dimensions,
}
use docuai.Ocr.PageText.{
  NativeTextRule, normalize_extracted_text, is_native_text_usable, truncate_text,
}
use docuai.Ocr.Processing.{Failure, processing, permanent, unexpected}

pub record ExtractedPage : Type 0 where
  pub page_number : ℕ
  pub status : OcrPageStatus
  pub method : Option OcrExtractionMethod
  pub text : Option Text
  pub confidence : Option ℕ
  pub char_count : ℕ
  pub truncated : Bool
  pub error_code : Option OcrErrorCode

-- PdfPageInfo of tools/poppler.service.ts
pub record PdfPageInfo : Type 0 where
  pub width : ℕ
  pub height : ℕ

-- PdfInfo; the sizes stand under their page numbers, the last one read first.
pub record PdfInfo : Type 0 where
  pub page_count : ℕ
  pub pages : List (ℕ × PdfPageInfo)

pub record InspectedFile : Type 0 where
  pub format : DetectedFormat
  pub total_pages : ℕ
  pub pdf : Option PdfInfo

pub record ExtractionConfig : Type 0 where
  pub page_timeout_ms : ℕ
  pub max_pdf_pages : ℕ
  pub render_dpi : ℕ
  pub max_render_pixels : ℕ
  pub max_image_pixels : ℕ
  pub max_text_per_page : ℕ
  pub max_text_per_document : ℕ
  pub native_text : NativeTextRule

-- When the service reads the clock.
pub data Moment : Type 0 where
  text_layer : Moment
  page_start page_render page_recognition : ℕ → Moment

-- The stored file, or the picture of one of its pages.
pub data Image : Type 0 where
  stored_file : Image
  rendered : ℕ → Image

-- What the engine returns: the text and the mean confidence.
pub record OcrRecognizeResult : Type 0 where
  pub text : Text
  pub confidence : Option ℕ

pub record ExtractionTools : Type 0 where
  pub nfc : Text → Text
  pub is_alphanumeric : ℕ → Bool
  pub clock : Moment → ℕ
  pub read_head : Result Failure Bytes
  pub info : (timeout : ℕ) → Result Failure PdfInfo
  pub extract_text : (page_count timeout max_bytes : ℕ) → Result Failure (List Text)
  pub render_page : (page dpi timeout : ℕ) → Result Failure (Unit {0})
  pub recognize : Image → (language : Text) → (timeout : ℕ) → Result Failure OcrRecognizeResult

pub record ExtractionInput : Type 0 where
  pub inspected : InspectedFile
  pub language : Text
  pub deadline : ℕ
  pub start_page : ℕ
  pub char_budget : ℕ

-- The pages that the generator yields before it ends or throws.
pub record Extracted : Type 0 where
  pub pages : List ExtractedPage
  pub failure : Option Failure

abbrev pub min_render_dpi : ℕ
min_render_dpi = 50

abbrev pub failed_page : ℕ → OcrErrorCode → Option OcrExtractionMethod → ExtractedPage
failed_page page_number code method = record {
  page_number = page_number;
  status = OcrPageStatus.failed;
  method = method;
  text = none;
  confidence = none;
  char_count = 0;
  truncated = false;
  error_code = some code;
}

-- A budget below 0 of the source is 0 here: the service only tests whether it is above 0.
unfoldable pub store_text :
    (page_number : ℕ)
    → OcrExtractionMethod
    → Text
    → Option ℕ
    → (budget max_per_page : ℕ) → ExtractedPage
unfolding truncate_text
store_text page_number method text confidence budget max_per_page =
    if is_empty text
    then record {
      page_number = page_number;
      status = OcrPageStatus.empty;
      method = some method;
      text = some [];
      confidence = confidence;
      char_count = 0;
      truncated = false;
      error_code = none;
    }
    else if budget == 0
    then failed_page page_number OcrErrorCode.ocr_text_limit_exceeded (some method)
    else let cut = truncate_text text (min max_per_page budget) in
      record {
        page_number = page_number;
        status = OcrPageStatus.completed;
        method = some method;
        text = some cut.text;
        confidence = confidence;
        char_count = cut.char_count;
        truncated = cut.truncated;
        error_code = none;
      }

unfoldable pub mime_of : DetectedFormat → Text
mime_of DetectedFormat.pdf = pdf_type
mime_of DetectedFormat.jpeg = jpeg_type
mime_of DetectedFormat.png = png_type
mime_of DetectedFormat.webp = webp_type

abbrev pub is_pdf : DetectedFormat → Bool
is_pdf DetectedFormat.pdf = true
is_pdf _ = false

-- A failure of one page, unless it means that a tool is missing.
pub page_failure : Failure → ℕ → Option ExtractedPage
page_failure (processing e) page_number =
    if e.command_not_found then none else some (failed_page page_number e.code none)
page_failure _ page_number = none

abbrev pub page_size : ℕ → List (ℕ × PdfPageInfo) → Option PdfPageInfo
page_size n [] = none
page_size n ((k, size) ∷ pages) = if k == n then some size else page_size n pages

-- The greatest number up to a bound whose square is at most `n`: min(bound, floor(sqrt(n))).
unfoldable pub root_up_to : (bound n : ℕ) → ℕ
root_up_to zero n = 0
root_up_to (suc k) n = elim (leb (suc k * suc k) n) [ true ↦ suc k | false ↦ root_up_to k n ]
