-- ===== src/Dataset/Quality.antt =====
-- The checks of app/app/application/securities/dataset/quality.py, and the report of
-- app/app/domain/securities/dataset.py that they add up to.
use info_backend.Prelude.{
  ℕ, Bool, true, false, not, ◌&&◌, ◌||◌, Option, none, some, List, [], ◌∷◌, ◌++◌, take, map, any,
  filter_by, length, Text, codes, ltb, leb, ◌==◌, if◌then◌else◌,
}
use info_backend.Dataset.Domain.{
  Floats, StatementRow, Tables, all_rows, OfficialFigure, DisclosureEntry,
}
use info_backend.Dataset.Reconciliation.{
  Violation, discontinuous, undisclosed, stale, excluded_period, old_continuity_break, YearBreak,
  QualityCheck, max_listed, is_empty, reconciliation,
}
use info_backend.Dataset.Screening.{Screening, text_ltb}
use info_backend.Dataset.Structure.{structure}
use info_backend.Dataset.Continuity.{continuity}
use info_backend.Dataset.Official.{official, basis_coverage}

-- `_disclosure`; here the list is not cut.
unfoldable pub disclosure : List DisclosureEntry → List ℕ → QualityCheck
disclosure calendar window =
    let missing = filter_by (λ y. not (any (λ e. e.fiscal_year == y) calendar)) window in
    record {
      check_id = codes "Q-DISCLOSURE";
      blocking = false;
      passed = is_empty missing;
      checked = length window;
      violations = map undisclosed missing;
    }

-- The days from a date to today; a date in the future is no day old.
abbrev pub Age : Type 0
Age = Text → ℕ

abbrev later_of : Text → Option Text → Text
later_of date none = date
later_of date (some t) = if text_ltb t date then date else t

unfoldable pub latest_date : List StatementRow → Option Text
unfolding text_ltb
latest_date [] = none
latest_date (row ∷ rows) = some (later_of row.report_date (latest_date rows))

abbrev freshness_of : Age → Option Text → QualityCheck
freshness_of age none = record {
  check_id = codes "Q-FRESH";
  blocking = false;
  passed = false;
  checked = 0;
  violations = [];
}
freshness_of age (some date) = record {
  check_id = codes "Q-FRESH";
  blocking = false;
  passed = leb (age date) 200;
  checked = 1;
  violations = if leb (age date) 200 then [] else stale date (age date) ∷ [];
}

-- `_freshness`
unfoldable pub freshness : Age → Tables → QualityCheck
unfolding latest_date
freshness age tables = freshness_of age (latest_date (all_rows tables))

abbrev old_break : Violation → List YearBreak
old_break (discontinuous b) = if b.outside_hard_window then b ∷ [] else []
old_break _ = []

-- `_old_breaks`, from the violations that the check lists
unfoldable pub old_breaks : List Violation → List YearBreak
old_breaks [] = []
old_breaks (v ∷ violations) = old_break v ++ old_breaks violations

-- `_excluded`
unfoldable pub excluded_check : Screening → List YearBreak → QualityCheck
excluded_check s old =
    let listed = map excluded_period s.excluded ++ map old_continuity_break old in
    record {
      check_id = codes "Q-OLD";
      blocking = false;
      passed = false;
      checked = length listed;
      violations = take max_listed listed;
    }

unfoldable pub screened : Option Screening → QualityCheck → List QualityCheck
unfolding old_breaks excluded_check
screened none c = []
screened (some s) c =
    let old = old_breaks c.violations in
    if is_empty s.excluded && is_empty old then [] else excluded_check s old ∷ []

abbrev pub first_year : Option Screening → Option ℕ
first_year none = none
first_year (some s) = s.first_hard_year

unfoldable pub insert_year : ℕ → List ℕ → List ℕ
insert_year y [] = y ∷ []
insert_year y (x ∷ l) =
    let later = x ∷ insert_year y l in
    if y == x then x ∷ l else if ltb y x then y ∷ x ∷ l else later

-- `window`
unfoldable pub window_of : List OfficialFigure → List ℕ
unfolding insert_year
window_of [] = []
window_of (figure ∷ figures) = insert_year figure.report_fiscal_year (window_of figures)

abbrev pub with_official :
    Floats
    → Tables
    → List OfficialFigure
    → List DisclosureEntry
    → Age
    → Option Screening
    → Option QualityCheck
    → Option (List QualityCheck)
with_official f tables figures calendar age s none = none
with_official f tables figures calendar age s (some c) =
    let window = window_of figures in
    let cash = continuity f tables (first_year s) in
    some (
      (structure tables window ∷ [])
      ++ reconciliation f tables
      ++ (cash
          ∷ c
          ∷ basis_coverage tables window
          ∷ disclosure calendar window
          ∷ freshness age tables
          ∷ [])
      ++ screened s cash)

-- `run_checks`; `none` is the KeyError of `_official`.
unfoldable pub run_checks :
    Floats
    → Tables
    → List OfficialFigure
    → List DisclosureEntry
    → Age
    → Option Screening
    → Option (List QualityCheck)
unfolding structure reconciliation continuity official basis_coverage disclosure freshness screened
    window_of
run_checks f tables figures calendar age s =
    with_official f tables figures calendar age s (official f tables figures)

-- `QualityReport.passed`
unfoldable pub passed : List QualityCheck → Bool
passed [] = true
passed (c ∷ checks) = (not c.blocking || c.passed) && passed checks

-- `QualityReport.failed_blocking`
unfoldable pub failed_blocking : List QualityCheck → List Text
failed_blocking [] = []
failed_blocking (c ∷ checks) =
    let rest = failed_blocking checks in
    if c.blocking && not c.passed then c.check_id ∷ rest else rest
