-- ===== src/Dataset/Examples.antt =====
-- Checks of a small data set.
use info_backend.Prelude.{
  ℕ, ◌+◌, ◌-◌, ◌≡◌, refl, true, false, Option, none, some, List, [], ◌∷◌, max, Text, text_eq, codes,
  ltb, leb, All, if◌then◌else◌,
}
use info_backend.Dataset.Domain.{
  Float, Floats, original, unverified, StatementRow, Tables, all_rows, OfficialFigure,
  balance_sheet, income_statement, cash_flow,
}
use info_backend.Dataset.Reconciliation.{QualityCheck}
use info_backend.Dataset.Screening.{Screening, screen, screen_rows}
use info_backend.Dataset.Basis.{annual, assign_basis}
use info_backend.Dataset.Quality.{run_checks, passed}
use info_backend.Dataset.Published.{IsPublishable, run_checks-IsPublishable}
use info_backend.Dataset.Screened.{IsScreened, DatedBy, screen-IsScreened}
use info_backend.Dataset.Listed.{IsAccounted, screen-IsAccounted}
use info_backend.Dataset.Founded.{IsDecided, assign_basis-IsDecided}

-- Numbers from 1000 on stand for themselves less 1000, so that there are negative ones.
abbrev floats : Floats
floats = record {
  zero = 1000;
  tolerance = 1001;
  negate = λ a. 2000 - a;
  plus = λ a b. a + b - 1000;
  minus = λ a b. a + 1000 - b;
  abs = λ a. max a (2000 - a);
  round = λ a. a;
  maximum = λ a b. max a b;
  gt = λ a b. ltb b a;
  le = λ a b. leb a b;
}

abbrev value : Text → ℕ → Text × Option Float
value name n = (name, some (1000 + n))

abbrev row : Text → ℕ → Text → List (Text × Option Float) → StatementRow
row statement year date values = record {
  statement = statement;
  security_code = codes "600009";
  report_date = date;
  report_type = annual;
  fiscal_year = year;
  aggregator_notice_date = none;
  currency = none;
  values = values;
  basis = unverified;
  verified = false;
  verified_against = none;
}

abbrev balance : ℕ → List (Text × Option Float)
balance n =
    value (codes "total_assets") n
    ∷ value (codes "total_liabilities") 40
    ∷ value (codes "total_equity") 60
    ∷ value (codes "total_liab_equity") 100
    ∷ value (codes "total_parent_equity") 60
    ∷ value (codes "total_current_assets") 30
    ∷ value (codes "total_noncurrent_assets") 70
    ∷ value (codes "total_current_liab") 10
    ∷ value (codes "total_noncurrent_liab") 30
    ∷ []

abbrev income : List (Text × Option Float)
income =
    value (codes "operate_income") 50
    ∷ value (codes "netprofit") 20
    ∷ value (codes "parent_netprofit") 20
    ∷ value (codes "total_profit") 20
    ∷ []

abbrev cash : List (Text × Option Float)
cash =
    value (codes "netcash_operate") 9
    ∷ value (codes "netcash_invest") 0
    ∷ value (codes "netcash_finance") 0
    ∷ value (codes "cce_add") 9
    ∷ value (codes "begin_cce") 1
    ∷ value (codes "end_cce") 10
    ∷ []

abbrev day : ℕ → Text
day year = if leb 2024 year then codes "2024-12-31" else codes "2003-12-31"

-- The year 2003 does not balance.
abbrev tables : Tables
tables =
    (
      balance_sheet,
      row balance_sheet 2024 (day 2024) (balance 100)
          ∷ row balance_sheet 2003 (day 2003) (balance 90)
          ∷ [],
    )
    ∷ (income_statement, row income_statement 2024 (day 2024) income ∷ [])
    ∷ (cash_flow, row cash_flow 2024 (day 2024) cash ∷ [])
    ∷ []

abbrev figure : Text → ℕ → OfficialFigure
figure item n = record {
  fiscal_year = 2024;
  item = item;
  value = 1000 + n;
  basis = original;
  column_label = codes "2024";
  source_report = codes "annual-2024";
  report_fiscal_year = 2024;
  disclosed_date = codes "2025-03-30";
  page = 7;
  revised_report = false;
  precision = 1001;
}

abbrev figures : List OfficialFigure
figures =
    figure (codes "operate_income") 50
    ∷ figure (codes "total_profit") 20
    ∷ figure (codes "total_assets") 100
    ∷ figure (codes "netcash_operate") 9
    ∷ []

abbrev screened_rows : Screening
screened_rows = screen_rows floats tables 10 (all_rows tables)

abbrev year_in : Text → ℕ
year_in date = if text_eq date (codes "2024-12-31") then 2024 else 2003

dated : DatedBy year_in (all_rows tables)
unfolding text_eq
dated = (refl, (refl, (refl, (refl, tt))))

screens : screen floats tables 10 ≡ some screened_rows
unfolding screen
screens = refl

screen-IsScreened_example : IsScreened floats tables screened_rows screened_rows.first_hard_year
screen-IsScreened_example = screen-IsScreened floats tables 10 year_in dated screens

screen-IsAccounted_example : IsAccounted floats tables screened_rows
screen-IsAccounted_example = screen-IsAccounted floats tables 10 screens

abbrev decided : Tables
decided = assign_basis floats screened_rows.rows figures

assign_basis-IsDecided_example :
    All
      (λ (entry : Text × List StatementRow).
        All (IsDecided floats screened_rows.rows figures) entry.1)
      decided
assign_basis-IsDecided_example = assign_basis-IsDecided floats screened_rows.rows figures

abbrev or_empty : Option (List QualityCheck) → List QualityCheck
or_empty none = []
or_empty (some l) = l

abbrev checks : List QualityCheck
checks = or_empty (run_checks floats decided figures [] (λ d. 10) (some screened_rows))

checked : run_checks floats decided figures [] (λ d. 10) (some screened_rows) ≡ some checks
unfolding run_checks screen_rows assign_basis text_eq
checked = refl

passes : passed checks ≡ true
unfolding passed run_checks screen_rows assign_basis text_eq
passes = refl

run_checks-IsPublishable_example : IsPublishable floats decided figures (some screened_rows)
run_checks-IsPublishable_example =
    run_checks-IsPublishable floats decided figures [] (λ d. 10) (some screened_rows) checked passes
