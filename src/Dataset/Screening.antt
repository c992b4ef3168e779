-- ===== src/Dataset/Screening.antt =====
-- `screen` of app/app/application/securities/dataset/quality.py: the periods before the hard window that do
-- not balance are left out.
use info_backend.Prelude.{
  ℕ, ◌+◌, ◌-◌, max, Bool, true, false, not, Option, none, some, List, [], ◌∷◌, ◌++◌, map, filter_by,
  any, Text, text_eq, ltb, leb, ◌==◌, if◌then◌else◌,
}
use info_backend.Dataset.Domain.{
  Float, Floats, StatementRow, Tables, rows_of, all_rows, ReconciliationRule, reconciliation_rules,
}
use info_backend.Dataset.Reconciliation.{residual, exceeds, Excluded}

-- `Screening`; `_dropped` is not read after `screen`.
pub record Screening : Type 0 where
  pub rows : Tables
  pub first_hard_year : Option ℕ
  pub excluded : List Excluded
  pub hard_years : ℕ

-- A period that breaks a rule
pub record Break : Type 0 where
  pub report_date : Text
  pub report_type : Text
  pub rule_id : Text
  pub rounded : Float

abbrev pub break_by : Floats → ReconciliationRule → StatementRow → Option Float → List Break
break_by f rule row none = []
break_by f rule row (some r) =
    if exceeds f r
    then record {
      report_date = row.report_date;
      report_type = row.report_type;
      rule_id = rule.rule_id;
      rounded = f.round r;
    }
      ∷ []
    else []

-- The inner loop: what the rule finds in the rows before the year
unfoldable pub breaks_in : Floats → ℕ → ReconciliationRule → List StatementRow → List Break
unfolding residual
breaks_in f first rule [] = []
breaks_in f first rule (row ∷ rows) =
    let rest = breaks_in f first rule rows in
    if leb first row.fiscal_year then rest else break_by f rule row (residual f rule row) ++ rest

unfoldable pub breaks : Floats → ℕ → Tables → List ReconciliationRule → List Break
unfolding breaks_in rows_of
breaks f first tables [] = []
breaks f first tables (rule ∷ rules) =
    breaks_in f first rule (rows_of rule.source_table tables) ++ breaks f first tables rules

abbrev pub has_date : Text → Break → Bool
has_date date b = text_eq b.report_date date

-- `report_date in dropped`
abbrev pub is_dropped : List Break → Text → Bool
is_dropped found date = any (has_date date) found

abbrev pub is_kept : List Break → StatementRow → Bool
is_kept found row = not (is_dropped found row.report_date)

abbrev pub kept : List Break → Tables → Tables
kept found [] = []
kept found ((k, rows) ∷ rest) = (k, filter_by (is_kept found) rows) ∷ kept found rest

-- the order of texts
unfoldable pub text_ltb : Text → Text → Bool
text_ltb s [] = false
text_ltb [] (b ∷ t) = true
text_ltb (a ∷ s) (b ∷ t) = let rest = text_ltb s t in if a == b then rest else ltb a b

unfoldable pub insert_date : Text → List Text → List Text
unfolding text_ltb text_eq
insert_date d [] = d ∷ []
insert_date d (x ∷ l) =
    let later = x ∷ insert_date d l in
    if text_eq d x then x ∷ l else if text_ltb d x then d ∷ x ∷ l else later

-- `sorted(reasons)`
unfoldable pub dates : List Break → List Text
unfolding insert_date
dates [] = []
dates (b ∷ found) = insert_date b.report_date (dates found)

-- `kinds[date]`: the type that was written last
unfoldable pub kind_of : Text → Text → List Break → Text
kind_of date last [] = last
kind_of date last (b ∷ found) = kind_of date (if has_date date b then b.report_type else last) found

unfoldable pub excluded_by : List Break → Text → Excluded
unfolding kind_of
excluded_by found date = record {
  report_date = date;
  report_type = kind_of date [] found;
  rules = map (λ b. (b.rule_id, b.rounded)) (filter_by (has_date date) found);
}

-- `max(years)`
abbrev pub latest_year : List StatementRow → ℕ
latest_year [] = 0
latest_year (row ∷ rows) = max row.fiscal_year (latest_year rows)

unfoldable pub screen_rows : Floats → Tables → ℕ → List StatementRow → Screening
unfolding breaks dates excluded_by reconciliation_rules
screen_rows f tables hard_years [] = record {
  rows = tables;
  first_hard_year = none;
  excluded = [];
  hard_years = hard_years;
}
screen_rows f tables hard_years (row ∷ rows) =
    let first = latest_year (row ∷ rows) + 1 - hard_years in
    let found = breaks f first tables reconciliation_rules in
    record {
      rows = kept found tables;
      first_hard_year = some first;
      excluded = map (excluded_by found) (dates found);
      hard_years = hard_years;
    }

-- `screen`; `none` is the ValueError. A first year below zero is zero here, which no year is below.
unfoldable pub screen : Floats → Tables → ℕ → Option Screening
unfolding screen_rows
screen f tables hard_years =
    if ltb hard_years 1 then none else some (screen_rows f tables hard_years (all_rows tables))
