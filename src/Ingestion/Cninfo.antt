-- ===== src/Ingestion/Cninfo.antt =====
-- `CninfoDisclosureCollector` (app/app/application/securities/collectors/cninfo.py) as the tree of its
-- requests.
use info_backend.Prelude.{
  ℕ, zero, suc, ◌+◌, ◌-◌, ◌*◌, Bool, true, false, ◌||◌, Option, none, some, List, [], ◌∷◌, ◌++◌,
  Text, text_eq, codes, leb, ltb, if◌then◌else◌,
}
use info_backend.SecurityCode.{SecurityCode}
use info_backend.Ingestion.Domain.{
  Bytes, Value, Meta, FetchRequest, cninfo, stock_list, announcement_query, report_file, decimal,
}
use info_backend.Ingestion.Context.{Script, finished, fails, fetching, trying}
use info_backend.Ingestion.Service.{Collector}
use info_backend.Ingestion.Summary.{text_leb}
use info_backend.Ingestion.Json.{
  Json, Object, get, field_of, as_list, as_int, values, Reader, unexpected, Read, got, unreadable,
}
use info_backend.Ingestion.Reports.{Report, reports_in, without_relisted}

-- `__init__`; `today` is the text of the date, and the timeout is in seconds.
pub record Settings : Type 0 where
  pub today : Text
  pub this_year : ℕ
  pub years : ℕ
  pub max_report_bytes : ℕ
  pub report_timeout_seconds : ℕ

-- The guards of `__init__`
unfoldable pub new_settings : Settings → Option Settings
new_settings s =
    if ltb s.years 1 || ltb 30 s.years
    then none
    else if leb s.max_report_bytes 0 || leb s.report_timeout_seconds 0
    then none
    else some s

abbrev base : Text
base = codes "http://www.cninfo.com.cn"

abbrev static_base : Text
static_base = codes "http://static.cninfo.com.cn"

abbrev page_size : ℕ
page_size = 30

abbrev pub max_pages : ℕ
max_pages = 10

unfoldable pub list_request : FetchRequest
list_request = record {
  source = cninfo;
  kind = stock_list;
  url = base ++ codes "/new/data/szse_stock.json";
  name = codes "stock-list.json";
  method = codes "GET";
  params = [];
  form = none;
  meta = [];
  max_bytes = none;
  timeout_seconds = none;
}

abbrev stock_list_text : Text
stock_list_text = codes "stock list"

abbrev org_id_of : Reader → Option Json → Read Text
org_id_of r (some (Json.text t)) =
    if r.is_org_id t then got t else unreadable (unexpected (codes "org id"))
org_id_of r _ = unreadable (unexpected (codes "org id"))

abbrev is_code : Text → Option Json → Bool
is_code code (some (Json.text t)) = text_eq t code
is_code code _ = false

abbrev object_of : Json → Option Object
object_of (Json.object o) = some o
object_of _ = none

-- The loop of `_org_id`
unfoldable pub find_org : Reader → Text → List Json → Read Text
unfolding get text_eq
find_org r code [] =
    unreadable (record { code = codes "security_not_found_at_source"; detail = codes "cninfo" })
find_org r code (row ∷ rows) =
    let rest = find_org r code rows in
    if is_code code (field_of (codes "code") row)
    then org_id_of r (field_of (codes "orgId") row)
    else rest

abbrev org_in : Reader → Text → Option (List Json) → Read Text
org_in r code none = unreadable (unexpected stock_list_text)
org_in r code (some rows) = find_org r code rows

abbrev stocks_of : Option Json → Option Json
stocks_of none = none
stocks_of (some v) = field_of (codes "stockList") v

-- The end of `_org_id`
unfoldable pub read_org : Reader → Text → Bytes → Read Text
unfolding find_org get
read_org r code content = org_in r code (as_list (stocks_of (r.parse content)))

unfoldable pub page_request : Settings → Text → Text → ℕ → FetchRequest
unfolding decimal
page_request s code org_id page =
    let start = decimal (s.this_year - s.years) ++ codes "-01-01" in
    record {
      source = cninfo;
      kind = announcement_query;
      url = base ++ codes "/new/hisAnnouncement/query";
      name = codes "annual-announcements-p" ++ decimal page ++ codes ".json";
      method = codes "POST";
      params = [];
      form = some (
          (codes "pageNum", decimal page)
          ∷ (codes "pageSize", decimal page_size)
          ∷ (codes "column", codes "szse")
          ∷ (codes "tabName", codes "fulltext")
          ∷ (codes "plate", [])
          ∷ (codes "stock", code ++ codes "," ++ org_id)
          ∷ (codes "searchkey", [])
          ∷ (codes "secid", [])
          ∷ (codes "category", codes "category_ndbg_szsh")
          ∷ (codes "trade", [])
          ∷ (codes "seDate", start ++ codes "~" ++ s.today)
          ∷ (codes "sortName", [])
          ∷ (codes "sortType", [])
          ∷ (codes "isHLtitle", codes "true")
          ∷ []);
      meta = (codes "page", Value.number page) ∷ (codes "category", Value.text (codes "年报")) ∷ [];
      max_bytes = none;
      timeout_seconds = none;
    }

-- `payload.get("announcements") or []`; `none` when that is no list.
abbrev rows_or_empty : Option Json → Option (List Json)
rows_or_empty none = some []
rows_or_empty (some Json.null) = some []
rows_or_empty (some (Json.flag false)) = some []
rows_or_empty (some (Json.number zero)) = some []
rows_or_empty (some (Json.text [])) = some []
rows_or_empty (some (Json.object Object.last)) = some []
rows_or_empty (some (Json.array a)) = some (values a)
rows_or_empty _ = none

abbrev add_object : Option Object → List Object → List Object
add_object none l = l
add_object (some o) l = o ∷ l

abbrev objects_in : List Json → List Object
objects_in [] = []
objects_in (row ∷ rows) = add_object (object_of row) (objects_in rows)

-- `not isinstance(total, int) or page * _PAGE_SIZE >= total`
abbrev is_last_page : ℕ → Option ℕ → Bool
is_last_page page none = true
is_last_page page (some total) = leb total (page * page_size)

abbrev has_no_rows : List Json → Bool
has_no_rows [] = true
has_no_rows (row ∷ rows) = false

-- A page: its rows, and whether it is the last one
abbrev page_rows : ℕ → Object → Option (List Json) → Read (List Object × Bool)
page_rows page o none = unreadable (unexpected (codes "announcement list"))
page_rows page o (some rows) = got (
  objects_in rows,
  is_last_page page (as_int (get (codes "totalAnnouncement") o)) || has_no_rows rows,
)

abbrev page_of : ℕ → Option Object → Read (List Object × Bool)
page_of page none = unreadable (unexpected (codes "announcement query"))
page_of page (some o) = page_rows page o (rows_or_empty (get (codes "announcements") o))

abbrev object_or_none : Option Json → Option Object
object_or_none none = none
object_or_none (some v) = object_of v

unfoldable pub read_page : Reader → ℕ → Bytes → Read (List Object × Bool)
unfolding get
read_page r page content = page_of page (object_or_none (r.parse content))

abbrev pub after_page :
    List Object
    → Read (List Object × Bool)
    → (List Object → Script)
    → (List Object → Script)
    → Script
after_page found (unreadable e) next more = fails e
after_page found (got (rows, is_last)) next more =
    if is_last then next (found ++ rows) else more (found ++ rows)

-- The loop of `_annual_announcements`, with `rounds` pages left
unfoldable pub ask_pages :
    Reader → Settings → Text → Text → ℕ → ℕ → List Object → (List Object → Script) → Script
unfolding page_request read_page
ask_pages r s code org_id zero page found next =
    fails (record { code = codes "too_many_pages"; detail = codes "announcement query" })
ask_pages r s code org_id (suc rounds) page found next =
    fetching (page_request s code org_id page) λ content.
      after_page found (read_page r page content) next
        (λ l. ask_pages r s code org_id rounds (suc page) l next)

abbrev relisted_meta : List Text → Meta
relisted_meta [] = []
relisted_meta (t ∷ l) = (codes "relisted_as", Value.texts (t ∷ l)) ∷ []

-- `meta=report`, without the address and the size
abbrev report_meta : Report → Meta
report_meta x =
    (codes "fiscal_year", Value.number x.fiscal_year)
    ∷ (codes "title", Value.text x.title)
    ∷ (codes "announcement_id", Value.text x.announcement_id)
    ∷ (codes "announcement_time_ms", Value.number x.announcement_time_ms)
    ∷ (codes "official_disclosed_date", Value.text x.official_disclosed_date)
    ∷ (codes "revised", Value.flag x.revised)
    ∷ relisted_meta x.relisted_as

unfoldable pub report_request : Settings → Report → FetchRequest
unfolding decimal
report_request s x = record {
  source = cninfo;
  kind = report_file;
  url = static_base ++ codes "/" ++ x.adjunct_url;
  name = codes "annual-" ++ decimal x.fiscal_year ++ codes "-" ++ x.announcement_id ++ codes ".pdf";
  method = codes "GET";
  params = [];
  form = none;
  meta = report_meta x;
  max_bytes = some s.max_report_bytes;
  timeout_seconds = some s.report_timeout_seconds;
}

-- `sorted(reports, key=lambda r: r["announcement_id"])`
unfoldable pub insert_report : Report → List Report → List Report
unfolding text_leb
insert_report x [] = x ∷ []
insert_report x (y ∷ l) =
    let later = y ∷ insert_report x l in
    if text_leb x.announcement_id y.announcement_id then x ∷ y ∷ l else later

unfoldable pub by_id : List Report → List Report
unfolding insert_report
by_id [] = []
by_id (x ∷ l) = insert_report x (by_id l)

abbrev one_if : Option Bytes → ℕ
one_if none = 0
one_if (some content) = 1

-- The loop of `collect` over the reports
unfoldable pub ask_reports : Settings → List Report → ℕ → Script
unfolding report_request
ask_reports s [] zero = fails (record { code = codes "no_annual_report_downloaded"; detail = [] })
ask_reports s [] (suc downloaded) = finished
ask_reports s (x ∷ l) downloaded =
    trying (report_request s x) λ content. ask_reports s l (downloaded + one_if content)

abbrev pub ask_all : Settings → List Report → Script
ask_all s [] = fails (record { code = codes "no_annual_report_found"; detail = [] })
ask_all s (x ∷ l) = ask_reports s (by_id (x ∷ l)) 0

abbrev pub with_org : Reader → Settings → Text → Read Text → Script
with_org r s code (unreadable e) = fails e
with_org r s code (got org_id) =
    ask_pages r s code org_id max_pages 1 []
      λ rows. ask_all s (without_relisted (reports_in r rows))

-- `collect`
unfoldable pub collect : Reader → Settings → SecurityCode → Script
unfolding list_request read_org ask_pages ask_reports by_id without_relisted reports_in
collect r s code =
    fetching list_request λ content. with_org r s code.code (read_org r code.code content)

abbrev pub collector : Reader → Settings → Collector
collector r s = record { source = codes "cninfo"; collect = collect r s }
