-- ===== src/Ingestion/Examples.antt =====
-- Runs of a collection on concrete batches.
use info_backend.Prelude.{
  Text, ℕ, ◌+◌, ◌≡◌, refl, map, arith, Bool-cases, inl, inr, false, ◌&&◌, none, some, [], ◌∷◌,
  text_eq, codes, leb, if◌then◌else◌,
}
use info_backend.SecurityCode.{SecurityCode, shanghai, security_code, market}
use info_backend.Intake.Domain.{pending, succeeded}
use info_backend.Ingestion.Domain.{
  source_text, FetchRequest, RawResponse, Value, cninfo, report_file, stock_list, IngestionSummary,
  done, crashed, not_runnable,
}
use info_backend.Ingestion.Storage.{Backend, put_bytes, stored_object}
use info_backend.Ingestion.Store.{Batch, World, StoreEnv, begin, registered}
use info_backend.Ingestion.Archive.{archive, security_object_key, new_artifact}
use info_backend.Ingestion.Context.{
  Env, response, refused, fetch, fetch_with_retry, finished, fetching, trying,
}
use info_backend.Ingestion.Service.{Service, Collector, collect_all, new_run, run}
use info_backend.Ingestion.Collection.{IsStored}
use info_backend.Ingestion.Objects.{HasHexDigest}
use info_backend.Ingestion.Keys.{security_object_key-IsDigestKey}
use info_backend.Ingestion.Seen.{IsSeen, fetch-IsSeen}
use info_backend.Ingestion.Retry.{IsSettled, fetch_with_retry-IsSettled}
use info_backend.Ingestion.Once.{here, later, begins, run-once}
use info_backend.Ingestion.Refines.{Refines, collect_all-Refines}

-- The digest of the examples has a digit for each byte, and the backend is a directory.
abbrev digit_of : ℕ → ℕ
digit_of c = if leb c 9 then b'0' + c else b'f'

abbrev backend : Backend
backend = record {
  is_s3 = false;
  bucket = codes "info";
  sha256 = map digit_of;
  lower = λ t. t;
  put_object = λ bucket key content. none;
  head_object = λ bucket key version. none;
}

abbrev pub store : StoreEnv
store = record {
  digit = λ c. leb b'0' c && leb c b'9';
  clock = λ t. 100 + t;
  db_now = λ t. 200 + t;
  backend = backend;
  new_id = λ w. 5;
}

abbrev asked : FetchRequest
asked = record {
  source = cninfo;
  kind = stock_list;
  url = codes "http://a";
  name = codes "stock list.json";
  method = codes "GET";
  params = [];
  form = none;
  meta = [];
  max_bytes = none;
  timeout_seconds = none;
}

abbrev report : FetchRequest
report = record asked {
  kind = report_file;
  name = codes "annual.pdf";
  meta = (codes "fiscal_year", Value.number 2024) ∷ [];
}

abbrev pub page : RawResponse
page = record {
  status_code = 200;
  content_type = codes "text/html";
  content = 1 ∷ 2 ∷ 3 ∷ [];
  final_url = codes "http://a";
  decoded_from = none;
}

-- The first call is too slow.
abbrev env : Env
env = record {
  store = store;
  fetcher =
      λ n request. if leb n 0 then refused (codes "crawl_deadline_exceeded") else response page;
}

abbrev batch : Batch
batch = record {
  id = 7;
  security_code = codes "600009";
  market = shanghai;
  status = pending;
  sources = registered;
  requested_at = 90;
  started_at = none;
  finished_at = none;
  summary = none;
  error_code = none;
  error_detail = none;
  dataset_build_error = none;
  dataset_build_refused_at = none;
}

abbrev pub world : World
world = record {
  batches = batch ∷ [];
  sources = registered;
  jobs = [];
  artifacts = [];
  items = [];
  bucket = [];
  tick = 0;
  calls = 0;
}

abbrev collector : Collector
collector = record {
  source = codes "cninfo";
  collect =
      λ code. fetching asked (λ content. trying report (λ o. fetching asked (λ again. finished)));
}

abbrev service : Service
service = record {
  env = env;
  conversions = record { shown = λ v. []; int_of = λ t. none };
  collectors = collector ∷ [];
}

abbrev pub code : SecurityCode
code = record { code = codes "600009"; market = shanghai }

begins_batch : (begin store 7 world).0 ≡ done (some code)
unfolding begin security_code market
begins_batch = refl

-- The list is the same both times, so there is one artifact for it.
abbrev summary : IngestionSummary
summary = record {
  ingestion_id = 7;
  security_code = codes "600009";
  status = succeeded;
  started_at = 101;
  finished_at = 105;
  items = 3;
  new_artifacts = 2;
  reused_artifacts = 1;
  bytes_fetched = 9;
  by_source = (codes "cninfo", 3) ∷ [];
  report_years = 2024 ∷ [];
  statement_periods = [];
  error_code = none;
  error_detail = none;
  skipped = [];
}

backend-HasHexDigest : HasHexDigest backend
backend-HasHexDigest [] = tt
backend-HasHexDigest (c ∷ content) = (
  elim (Bool-cases (leb c 9)) [ inl low ↦ rw low (ground (arith, low)) | inr high ↦ rw high refl ],
  backend-HasHexDigest content,
)

abbrev known_key : Text
known_key =
    security_object_key (codes "600009") (source_text cninfo) (backend.sha256 page.content)
      asked.name

-- The content of the page is there already.
abbrev known_world : World
known_world = record world {
  artifacts =
      new_artifact 9 8 (codes "600009") asked
        (stored_object backend known_key page.content page.content_type none) 80
      ∷ [];
  bucket = record { key = known_key; version = none; content = page.content } ∷ [];
}

known_world-IsStored : IsStored store known_world
unfolding IsStored new_artifact security_object_key text_eq
known_world-IsStored = (
  (
    security_object_key-IsDigestKey backend (codes "600009") (source_text cninfo) asked.name
        page.content backend-HasHexDigest,
    refl,
  ),
  tt,
)

fetched : (fetch env 7 (codes "600009") asked (new_run known_world)).0 ≡ done (1 ∷ 2 ∷ 3 ∷ [])
unfolding fetch text_eq archive put_bytes
fetched = refl

fetch-IsSeen_example :
    IsSeen store [] (1 ∷ 2 ∷ 3 ∷ []) (fetch env 7 (codes "600009") asked (new_run known_world)).1
fetch-IsSeen_example =
    fetch-IsSeen env 7 (codes "600009") asked (new_run known_world) backend-HasHexDigest
      known_world-IsStored fetched

-- After another process has tried to begin the batch
run-once_example :
    let v = (begin store 7 (begin store 7 world).1).1 in
    run service 7 v ≡ (crashed not_runnable, (begin store 7 v).1)
run-once_example = run-once service 7 world _ begins_batch (later here (begins 7))

fetch_with_retry-IsSettled_example :
    IsSettled env asked 1 (new_run world) (fetch_with_retry env asked (new_run world))
fetch_with_retry-IsSettled_example = fetch_with_retry-IsSettled env asked (new_run world)

collect_all-Refines_example :
    let t = (collect_all env 7 code (collector ∷ []) (new_run world)).1 in
    Refines store world t.world t.items
collect_all-Refines_example = collect_all-Refines env 7 code (collector ∷ []) world
