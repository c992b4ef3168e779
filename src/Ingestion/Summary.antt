-- ===== src/Ingestion/Summary.antt =====
-- `_summarize` of app/app/application/securities/ingestion_service.py.
use info_backend.Prelude.{
  ℕ, suc, ◌+◌, Bool, true, false, not, ◌&&◌, Option, none, some, List, [], ◌∷◌, ◌++◌, map, length,
  count, Text, text_eq, codes, contains, ◌==◌, ltb, if◌then◌else◌,
}
use info_backend.Intake.Domain.{IngestionStatus}
use info_backend.Ingestion.Domain.{
  Value, text, number, flag, texts, lookup, ArchivedItem, CollectError, SkippedItem,
  IngestionSummary, StoredSkip, StoredSummary, source_text, is_statement_data, is_report_file,
  or_none,
}

-- `str` of a value that is not text, and `int` of a text; `none` is a ValueError.
pub record Conversions : Type 0 where
  pub shown : Value → Text
  pub int_of : Text → Option ℕ

abbrev pub statement_of : Conversions → Option Value → Text
statement_of c none = codes "None"
statement_of c (some (text t)) = t
statement_of c (some v) = c.shown v

-- `[str(p) for p in value]`; a text yields its characters, and a number cannot be walked.
abbrev pub periods_of : Option Value → Option (List Text)
periods_of none = some []
periods_of (some (texts l)) = some l
periods_of (some (text t)) = some (map (λ c. c ∷ []) t)
periods_of (some (number n)) = none
periods_of (some (flag b)) = none

-- `int(value)`
abbrev pub year_of : Conversions → Option Value → Option ℕ
year_of c none = none
year_of c (some (number n)) = some n
year_of c (some (text t)) = c.int_of t
year_of c (some (flag b)) = some (if b then 1 else 0)
year_of c (some (texts l)) = none

-- `set.update`
unfoldable pub union : List Text → List Text → List Text
unfolding contains
union set [] = set
union set (t ∷ l) = if contains set t then union set l else union (set ++ t ∷ []) l

-- `periods.setdefault(key, set()).update(new)`
unfoldable pub add_periods : Text → List Text → List (Text × List Text) → List (Text × List Text)
unfolding union
add_periods key new [] = (key, union [] new) ∷ []
add_periods key new ((k, set) ∷ rest) =
    let later = (k, set) ∷ add_periods key new rest in
    if text_eq k key then (k, union set new) ∷ rest else later

abbrev pub was_fetched : ArchivedItem → Bool
was_fetched item = ltb item.http_status 400

unfoldable pub add_item_periods :
    Conversions
    → ArchivedItem
    → Option (List Text)
    → List (Text × List Text)
    → Option (List (Text × List Text))
unfolding add_periods
add_item_periods c item none found = none
add_item_periods c item (some l) found =
    some (add_periods (statement_of c (lookup (codes "statement") item.meta)) l found)

-- The first loop
unfoldable pub collect_periods :
    Conversions → List ArchivedItem → List (Text × List Text) → Option (List (Text × List Text))
unfolding add_item_periods
collect_periods c [] found = some found
collect_periods c (item ∷ items) found =
    let l = periods_of (lookup (codes "periods") item.meta) in
    elim (is_statement_data item.kind && was_fetched item) [
      | false ↦ collect_periods c items found
      | true ↦ elim (add_item_periods c item l found) [
        | none ↦ none
        | some more ↦ collect_periods c items more
      ]
    ]

-- a sorted set
unfoldable pub insert_year : ℕ → List ℕ → List ℕ
insert_year y [] = y ∷ []
insert_year y (x ∷ l) =
    let later = x ∷ insert_year y l in
    if y == x then x ∷ l else if ltb y x then y ∷ x ∷ l else later

unfoldable pub with_year : Option ℕ → Option (List ℕ) → Option (List ℕ)
unfolding insert_year
with_year (some y) (some l) = some (insert_year y l)
with_year _ _ = none

-- `sorted({...})` of the years
unfoldable pub report_years : Conversions → List ArchivedItem → Option (List ℕ)
unfolding with_year
report_years c [] = some []
report_years c (item ∷ items) =
    let rest = report_years c items in
    let year = year_of c (lookup (codes "fiscal_year") item.meta) in
    if is_report_file item.kind && was_fetched item then with_year year rest else rest

-- `Counter`
unfoldable pub tally : Text → List (Text × ℕ) → List (Text × ℕ)
tally key [] = (key, 1) ∷ []
tally key ((k, n) ∷ rest) =
    let later = (k, n) ∷ tally key rest in if text_eq k key then (k, suc n) ∷ rest else later

unfoldable pub count_sources : List ArchivedItem → List (Text × ℕ) → List (Text × ℕ)
unfolding tally
count_sources [] counts = counts
count_sources (item ∷ items) counts = count_sources items (tally (source_text item.source) counts)

unfoldable pub sum_sizes : List ArchivedItem → ℕ
sum_sizes [] = 0
sum_sizes (item ∷ items) = item.size_bytes + sum_sizes items

-- the order of texts
unfoldable pub text_leb : Text → Text → Bool
text_leb [] t = true
text_leb (a ∷ s) [] = false
text_leb (a ∷ s) (b ∷ t) = let rest = text_leb s t in if a == b then rest else ltb a b

unfoldable pub insert_entry : (Text × ℕ) → List (Text × ℕ) → List (Text × ℕ)
unfolding text_leb
insert_entry e [] = e ∷ []
insert_entry e (x ∷ l) =
    let later = x ∷ insert_entry e l in if text_leb e.0 x.0 then e ∷ x ∷ l else later

-- `{k: len(v) for k, v in sorted(periods.items())}`
unfoldable pub sorted_counts : List (Text × List Text) → List (Text × ℕ)
unfolding insert_entry
sorted_counts [] = []
sorted_counts ((k, set) ∷ rest) = insert_entry (k, length set) (sorted_counts rest)

abbrev pub error_code_of : Option CollectError → Option Text
error_code_of none = none
error_code_of (some e) = some e.code

abbrev pub error_detail_of : Option CollectError → Option Text
error_detail_of none = none
error_detail_of (some e) = or_none e.detail

unfoldable pub summary_of :
    ℕ
    → Text
    → IngestionStatus
    → ℕ
    → ℕ
    → List ArchivedItem
    → Option CollectError
    → List SkippedItem
    → Option (List (Text × List Text))
    → Option (List ℕ)
    → Option IngestionSummary
unfolding count_sources sum_sizes sorted_counts
summary_of id code status started ended items error skipped (some periods) (some years) =
    some (record {
      ingestion_id = id;
      security_code = code;
      status = status;
      started_at = started;
      finished_at = ended;
      items = length items;
      new_artifacts = count (λ i. not i.reused) items;
      reused_artifacts = count (λ i. i.reused) items;
      bytes_fetched = sum_sizes items;
      by_source = count_sources items [];
      report_years = years;
      statement_periods = sorted_counts periods;
      error_code = error_code_of error;
      error_detail = error_detail_of error;
      skipped = skipped;
    })
summary_of id code status started ended items error skipped _ _ = none

-- `_summarize`; `none` is an exception over a value of `meta`.
unfoldable pub summarize :
    Conversions
    → ℕ
    → Text
    → IngestionStatus
    → ℕ
    → ℕ
    → List ArchivedItem
    → Option CollectError
    → List SkippedItem
    → Option IngestionSummary
unfolding collect_periods report_years summary_of
summarize c id code status started ended items error skipped =
    summary_of id code status started ended items error skipped (collect_periods c items [])
      (report_years c items)

abbrev pub stored_skip : SkippedItem → StoredSkip
stored_skip s = record {
  source = source_text s.source;
  kind = s.kind;
  name = s.name;
  error_code = s.error_code;
  error_detail = s.error_detail;
  fiscal_year = lookup (codes "fiscal_year") s.meta;
}

-- The JSON that `run` hands to `finish`
unfoldable pub stored_summary : IngestionSummary → StoredSummary
stored_summary s = record {
  items = s.items;
  new_artifacts = s.new_artifacts;
  reused_artifacts = s.reused_artifacts;
  bytes_fetched = s.bytes_fetched;
  by_source = s.by_source;
  report_years = s.report_years;
  statement_periods = s.statement_periods;
  skipped = map stored_skip s.skipped;
}
