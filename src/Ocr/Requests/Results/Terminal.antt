-- ===== src/Ocr/Requests/Results/Terminal.antt =====
-- What OcrService.results (backend/src/ocr/ocr.service.ts) answers.
use docuai.Base.{ℕ, ◌≡◌, Bool, true, some, List, [], ◌∷◌, arith, Result, ok, err}
use docuai.Table.{find_many, count_where}
use docuai.Table.Paging.{total_pages, order_rows, page_of}
use docuai.Schema.{OcrJob, OcrPage}
use docuai.Errors.{AppException}
use docuai.World.{World}
use docuai.Documents.{get_owned}
use docuai.Ocr.Requests.{latest}
use docuai.Ocr.Requests.Results.{OcrResultsQuery, OcrResults, page_of_job, by_number}

pub latest-holds :
    (p : OcrJob → Bool) (js : List OcrJob) (j : OcrJob) → latest p js ≡ some j → p j ≡ true
unfolding latest
latest-holds p [] j e = absurd (cc)
latest-holds p (k ∷ js) j e = ground (arith, latest-holds p js j, e)

-- What `results` answers for a job.
abbrev answer : OcrJob → OcrResultsQuery → List OcrPage → OcrResults
answer j query ps = record {
  job = j;
  pages =
      page_of query.page query.limit
        (order_rows by_number (find_many (page_of_job j.id query.page_number) ps));
  page = query.page;
  limit = query.limit;
  total = count_where (page_of_job j.id query.page_number) ps;
  total_pages = total_pages (count_where (page_of_job j.id query.page_number) ps) query.limit;
}

abbrev pub pages_in : Result AppException OcrResults → List OcrPage
pages_in (ok r) = r.pages
pages_in (err e) = []

module _ (u d : ℕ) (query : OcrResultsQuery) (w : World) where
  abbrev w' : World
  w' = (get_owned u d w).1
