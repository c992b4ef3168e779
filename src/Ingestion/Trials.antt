-- ===== src/Ingestion/Trials.antt =====
-- The collectors on concrete responses.
use info_backend.Prelude.{
  ℕ, ◌≡◌, refl, true, false, ◌&&◌, Option, none, some, List, [], ◌∷◌, any, length, Text, text_eq,
  codes, leb, if◌then◌else◌,
}
use info_backend.Ingestion.Domain.{ItemKind, stock_list, announcement_query, Bytes, done, decimal}
use info_backend.Ingestion.Storage.{put_bytes}
use info_backend.Ingestion.Archive.{archive}
use info_backend.Ingestion.Context.{Env, response, play}
use info_backend.Ingestion.Service.{new_run}
use info_backend.Ingestion.Json.{Json, Array, Object, Reader}
use info_backend.Ingestion.Reports.{Report, without_relisted}
use info_backend.Ingestion.Relisted.{AreNew, DistinctReports, named, without_relisted-keeps}
use info_backend.Ingestion.Eastmoney.{batches}
use info_backend.Ingestion.Cninfo.{Settings, collect}
use info_backend.Ingestion.Downloaded.{is_report, collect-has_report}
use info_backend.Ingestion.Examples.{store, page, world, code}

abbrev stocks : Json
stocks = Json.object (
    Object.entry (codes "stockList")
      (Json.array (
        Array.item
          (Json.object (
            Object.entry (codes "code") (Json.text (codes "600009"))
              (Object.entry (codes "orgId") (Json.text (codes "gssh0600009")) Object.last)))
          Array.end))
      Object.last)

abbrev announcement : Json
announcement = Json.object (
    Object.entry (codes "announcementTitle") (Json.text (codes "2024")) (
      Object.entry (codes "adjunctUrl") (Json.text (codes "finalpage/a.PDF")) (
        Object.entry (codes "announcementId") (Json.text (codes "7")) (
          Object.entry (codes "announcementTime") (Json.number 5)
            (Object.entry (codes "secCode") (Json.text (codes "600009")) Object.last)))))

abbrev announcements : Json
announcements = Json.object (
    Object.entry (codes "announcements") (Json.array (Array.item announcement Array.end))
      (Object.entry (codes "totalAnnouncement") (Json.number 1) Object.last))

abbrev parsed : Bytes → Option Json
parsed content =
    if text_eq content (1 ∷ [])
    then some stocks
    else if text_eq content (2 ∷ [])
    then some announcements
    else none

abbrev reader : Reader
reader = record {
  parse = parsed;
  shown = λ v. [];
  digit = λ c. leb b'0' c && leb c b'9';
  lower = λ t. t;
  company_type = λ content. none;
  is_org_id = λ t. true;
  without_em = λ t. t;
  has_word = λ t word. false;
  title_year = λ t. some 2024;
  is_adjunct = λ t. true;
  int_of = λ t. some 7;
  shanghai_date = λ n. codes "2025-03-30";
}

abbrev settings : Settings
settings = record {
  today = codes "2025-06-01";
  this_year = 2025;
  years = 8;
  max_report_bytes = 1000;
  report_timeout_seconds = 180;
}

abbrev content_for : ItemKind → Bytes
content_for stock_list = 1 ∷ []
content_for announcement_query = 2 ∷ []
content_for _ = 3 ∷ []

abbrev env : Env
env = record {
  store = store;
  fetcher = λ n request. response (record page { content = content_for request.kind });
}

collects : (play env 7 code.code (collect reader settings code) (new_run world)).0 ≡ done tt
unfolding play collect archive put_bytes text_eq decimal
collects = refl

collect-has_report_example :
    any is_report (play env 7 code.code (collect reader settings code) (new_run world)).1.items
    ≡ true
collect-has_report_example = collect-has_report env 7 reader settings code (new_run world) collects

abbrev periods : List Text
periods =
    codes "2024-12-31"
    ∷ codes "2024-09-30"
    ∷ codes "2024-06-30"
    ∷ codes "2024-03-31"
    ∷ codes "2023-12-31"
    ∷ codes "2023-09-30"
    ∷ []

two_batches : length (batches periods) ≡ 2
unfolding batches
two_batches = refl

-- A response with a row for each period, one of them twice
abbrev rows_for : List Text → Array
rows_for [] = Array.end
rows_for (t ∷ l) =
    Array.item (Json.object (Object.entry (codes "REPORT_DATE") (Json.text t) Object.last))
      (rows_for l)

abbrev statement_reader : Reader
statement_reader = record reader {
  parse = λ content. some (
      Json.object (
        Object.entry (codes "data") (Json.array (rows_for (codes "2024-12-31" ∷ periods)))
          Object.last));
}

abbrev listed : Text → ℕ → Report
listed id n = record {
  fiscal_year = 2024;
  title = codes "2024";
  announcement_id = id;
  number = n;
  announcement_time_ms = 5;
  official_disclosed_date = codes "2025-03-30";
  revised = false;
  adjunct_url = codes "finalpage/a.PDF";
  listed_size_kb = some 100;
  relisted_as = [];
}

abbrev twice : List Report
twice = listed (codes "9") 9 ∷ listed (codes "7") 7 ∷ []

new_reports : AreNew twice
new_reports = (refl, (refl, tt))

one_is_kept : length (without_relisted twice) ≡ 1
unfolding without_relisted text_eq
one_is_kept = refl

without_relisted-keeps_example :
    ((id : Text) → named id (without_relisted twice) ≡ named id twice)
    × DistinctReports (without_relisted twice)
without_relisted-keeps_example = without_relisted-keeps twice new_reports
