-- ===== src/Ocr/Extraction/Samples.antt =====
-- Tools and limits for runs of the extraction at concrete inputs: a PDF of two pages, the first with a
-- text layer and the second a scan.
use docuai.Base.{some, [], ◌∷◌, leb, ok}
use docuai.Ocr.FileSignature.{pdf_signature, DetectedFormat}
use docuai.Ocr.Extraction.{
  ExtractionConfig, ExtractionTools, ExtractionInput, PdfInfo, InspectedFile,
}

abbrev pub sample_config : ExtractionConfig
sample_config = record {
  page_timeout_ms = 60000;
  max_pdf_pages = 5;
  render_dpi = 150;
  max_render_pixels = 20000000;
  max_image_pixels = 25000000;
  max_text_per_page = 4;
  max_text_per_document = 6;
  native_text = record { min_chars = 3; min_alphanumeric_ratio = 500 };
}

abbrev pub sample_pdf : PdfInfo
sample_pdf = record {
  page_count = 2;
  pages =
      (2, record { width = 595000; height = 842000 })
      ∷ (1, record { width = 595000; height = 842000 })
      ∷ [];
}

abbrev pub sample_tools : ExtractionTools
sample_tools = record {
  nfc = λ s. s;
  is_alphanumeric = λ c. leb 97 c;
  clock = λ m. 50;
  read_head = ok pdf_signature;
  info = λ timeout. ok sample_pdf;
  extract_text = λ count timeout bytes. ok ((97 ∷ 98 ∷ 99 ∷ 100 ∷ 101 ∷ []) ∷ [] ∷ []);
  render_page = λ page dpi timeout. ok tt;
  recognize = λ image language timeout.
      ok (record { text = 97 ∷ 98 ∷ 10 ∷ 98 ∷ []; confidence = some 9000 });
}

abbrev pub sample_file : InspectedFile
sample_file = record { format = DetectedFormat.pdf; total_pages = 2; pdf = some sample_pdf }

abbrev pub sample_input : ExtractionInput
sample_input = record {
  inspected = sample_file;
  language = b'e' ∷ b'n' ∷ b'g' ∷ [];
  deadline = 100;
  start_page = 1;
  char_budget = 6;
}
