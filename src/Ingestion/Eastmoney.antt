-- ===== src/Ingestion/Eastmoney.antt =====
-- `EastmoneyF10StatementCollector` (app/app/application/securities/collectors/eastmoney_f10.py) as the
-- tree of its requests.
use info_backend.Prelude.{
  ℕ, zero, suc, Bool, true, false, ◌&&◌, Option, none, some, List, [], ◌∷◌, ◌++◌, length, take,
  Text, text_eq, codes, contains, leb, ◌==◌, if◌then◌else◌,
}
use info_backend.SecurityCode.{SecurityCode}
use info_backend.Ingestion.Domain.{
  Bytes, Value, Meta, FetchRequest, ItemKind, eastmoney_f10, company_type_page, statement_periods,
  statement_data,
}
use info_backend.Ingestion.Context.{Script, finished, fails, fetching}
use info_backend.Ingestion.Service.{Collector}
use info_backend.Ingestion.Json.{
  Json, get, field_of, as_list, Reader, text_or_empty, unexpected, prefixed, Read, got, unreadable,
}

abbrev base : Text
base = codes "https://emweb.securities.eastmoney.com/PC_HSF10/NewFinanceAnalysis"

-- `STATEMENTS`
abbrev statement_prefixes : List (Text × Text)
statement_prefixes =
    (codes "balance_sheet", codes "zcfzb")
    ∷ (codes "income_statement", codes "lrb")
    ∷ (codes "cash_flow", codes "xjllb")
    ∷ []

abbrev pub max_periods : ℕ
max_periods = 400

abbrev pub batch_size : ℕ
batch_size = 5

-- A GET request of this source
abbrev request_for : ItemKind → Text → List (Text × Text) → Text → Meta → FetchRequest
request_for kind path params name meta = record {
  source = eastmoney_f10;
  kind = kind;
  url = base ++ codes "/" ++ path;
  name = name;
  method = codes "GET";
  params = params;
  form = none;
  meta = meta;
  max_bytes = none;
  timeout_seconds = none;
}

unfoldable pub type_request : Reader → SecurityCode → FetchRequest
type_request r code =
    request_for company_type_page (codes "Index")
      ((codes "type", codes "web") ∷ (codes "code", r.lower (prefixed code)) ∷ [])
      (codes "finance-index.html") []

unfoldable pub periods_request : SecurityCode → Text → Text → Text → FetchRequest
periods_request code company_type statement prefix =
    request_for statement_periods (prefix ++ codes "DateAjaxNew")
      ((codes "companyType", company_type)
        ∷ (codes "reportDateType", codes "0")
        ∷ (codes "code", prefixed code)
        ∷ [])
      (statement ++ codes "-periods.json") ((codes "statement", Value.text statement) ∷ [])

abbrev joined : List Text → Text
joined [] = []
joined (t ∷ []) = t
joined (t ∷ u ∷ l) = t ++ codes "," ++ joined (u ∷ l)

abbrev first_of : List Text → Text
first_of [] = []
first_of (t ∷ l) = t

abbrev last_of : Text → List Text → Text
last_of t [] = t
last_of t (u ∷ l) = last_of u l

unfoldable pub data_request : SecurityCode → Text → Text → Text → List Text → FetchRequest
data_request code company_type statement prefix batch =
    request_for statement_data (prefix ++ codes "AjaxNew")
      ((codes "companyType", company_type)
        ∷ (codes "reportDateType", codes "0")
        ∷ (codes "reportType", codes "1")
        ∷ (codes "dates", joined batch)
        ∷ (codes "code", prefixed code)
        ∷ [])
      (statement ++ codes "-" ++ last_of [] batch ++ codes "_" ++ first_of batch ++ codes ".json")
      ((codes "statement", Value.text statement) ∷ (codes "periods", Value.texts batch) ∷ [])

abbrev pub drop : ℕ → List Text → List Text
drop zero l = l
drop (suc n) [] = []
drop (suc n) (t ∷ l) = drop n l

-- The slices of `range(0, len(periods), _BATCH)`; each is not empty, so that the length is fuel enough.
unfoldable pub batches_within : ℕ → List Text → List (List Text)
batches_within zero l = []
batches_within (suc fuel) [] = []
batches_within (suc fuel) (t ∷ l) =
    take batch_size (t ∷ l) ∷ batches_within fuel (drop batch_size (t ∷ l))

unfoldable pub batches : List Text → List (List Text)
unfolding batches_within
batches l = batches_within (length l) l

-- `_PERIOD.match`
unfoldable pub period_of : Reader → Text → Option Text
period_of r (a ∷ b ∷ c ∷ d ∷ e ∷ f ∷ g ∷ h ∷ i ∷ j ∷ rest) =
    if r.digit a
      && r.digit b
      && r.digit c
      && r.digit d
      && e == b'-'
      && r.digit f
      && r.digit g
      && h == b'-'
      && r.digit i
      && r.digit j
    then some (a ∷ b ∷ c ∷ d ∷ e ∷ f ∷ g ∷ h ∷ i ∷ j ∷ [])
    else none
period_of r _ = none

abbrev row_period : Reader → Json → Option Text
row_period r (Json.object o) = period_of r (text_or_empty r (get (codes "REPORT_DATE") o))
row_period r _ = none

abbrev with_period : Option Text → Option (List Text) → Option (List Text)
with_period (some t) (some l) = some (t ∷ l)
with_period _ _ = none

-- The loop of `_periods`
unfoldable pub row_periods : Reader → List Json → Option (List Text)
unfolding period_of get
row_periods r [] = some []
row_periods r (row ∷ rows) = with_period (row_period r row) (row_periods r rows)

-- `list(dict.fromkeys(periods))`
unfoldable pub distinct : List Text → List Text → List Text
unfolding contains
distinct seen [] = []
distinct seen (t ∷ l) =
    let rest = distinct (t ∷ seen) l in
    let same = distinct seen l in if contains seen t then same else t ∷ rest

abbrev pub checked_periods : Text → Option (List Text) → Read (List Text)
checked_periods statement none = unreadable (unexpected (statement ++ codes " period"))
checked_periods statement (some l) =
    if leb (length l) max_periods
    then got (distinct [] l)
    else unreadable (unexpected (statement ++ codes " period count"))

abbrev pub listed_periods : Reader → Text → Option (List Json) → Read (List Text)
listed_periods r statement (some (row ∷ rows)) =
    checked_periods statement (row_periods r (row ∷ rows))
listed_periods r statement _ = unreadable (unexpected (statement ++ codes " periods"))

abbrev pub data_of : Option Json → Option Json
data_of none = none
data_of (some v) = field_of (codes "data") v

-- The end of `_periods`
unfoldable pub read_periods : Reader → Text → Bytes → Read (List Text)
unfolding row_periods distinct
read_periods r statement content = listed_periods r statement (as_list (data_of (r.parse content)))

abbrev pub has_rows : Option (List Json) → Bool
has_rows (some (row ∷ rows)) = true
has_rows _ = false

-- The inner loop of `collect`
unfoldable pub ask_batches :
    Reader → SecurityCode → Text → Text → Text → List (List Text) → Script → Script
unfolding data_request
ask_batches r code company_type statement prefix [] next = next
ask_batches r code company_type statement prefix (batch ∷ more) next =
    fetching (data_request code company_type statement prefix batch) λ content.
      if has_rows (as_list (data_of (r.parse content)))
      then ask_batches r code company_type statement prefix more next
      else fails (unexpected (statement ++ codes " data"))

abbrev pub with_periods :
    Reader → SecurityCode → Text → Text → Text → Read (List Text) → Script → Script
with_periods r code company_type statement prefix (got periods) next =
    ask_batches r code company_type statement prefix (batches periods) next
with_periods r code company_type statement prefix (unreadable e) next = fails e

-- The outer loop of `collect`
unfoldable pub ask_statements : Reader → SecurityCode → Text → List (Text × Text) → Script
unfolding ask_batches batches periods_request read_periods
ask_statements r code company_type [] = finished
ask_statements r code company_type ((statement, prefix) ∷ more) =
    fetching (periods_request code company_type statement prefix) λ content.
      with_periods r code company_type statement prefix (read_periods r statement content)
        (ask_statements r code company_type more)

abbrev after_type : Reader → SecurityCode → Option Text → Script
after_type r code none = fails (unexpected (codes "company type"))
after_type r code (some t) =
    if text_eq t (codes "4")
    then ask_statements r code t statement_prefixes
    else fails (record { code = codes "unsupported_company_type"; detail = t })

-- `collect`
unfoldable pub collect : Reader → SecurityCode → Script
unfolding ask_statements type_request text_eq
collect r code =
    fetching (type_request r code) λ content. after_type r code (r.company_type content)

abbrev pub collector : Reader → Collector
collector r = record { source = codes "eastmoney-f10"; collect = collect r }
