-- ===== src/Dataset/Official.antt =====
-- `_official` and `_basis_coverage` of app/app/application/securities/dataset/quality.py: the rows beside
-- the figures of the annual reports.
use info_backend.Prelude.{
  ℕ, ◌+◌, Bool, true, false, ◌&&◌, Option, none, some, List, [], ◌∷◌, ◌++◌, take, count, find?,
  Text, text_eq, codes, leb, ◌==◌, if◌then◌else◌,
}
use info_backend.Dataset.Domain.{
  Float, Floats, unverified, comparative, is_basis, StatementRow, value_in, Tables, rows_of,
  all_rows, OfficialFigure,
}
use info_backend.Dataset.Reconciliation.{
  Violation, differs, unverified_row, QualityCheck, max_listed, is_empty,
}
use info_backend.Dataset.Basis.{KeyItem, key_items}
use info_backend.Dataset.Structure.{is_annual, is_in}

-- `lookup.get((table, year))`: the last annual row of the year
unfoldable pub annual_row : ℕ → Option StatementRow → List StatementRow → Option StatementRow
annual_row y last [] = last
annual_row y last (row ∷ rows) =
    annual_row y (if is_annual row && row.fiscal_year == y then some row else last) rows

abbrev pub is_against : Text → Option Text → Bool
is_against report none = false
is_against report (some t) = text_eq t report

-- The values that are compared, if they are
unfoldable pub compared : Tables → OfficialFigure → KeyItem → Option StatementRow → Option Float
unfolding value_in
compared tables figure item none = none
compared tables figure item (some row) =
    if is_basis row.basis figure.basis && is_against figure.source_report row.verified_against
    then value_in item.field row.values
    else none

abbrev pub difference : Floats → OfficialFigure → Option Float → List Violation
difference f figure none = []
difference f figure (some v) =
    if f.gt (f.abs (f.minus v figure.value)) (f.maximum f.tolerance figure.precision)
    then differs figure.fiscal_year figure.item figure.basis figure.value v figure.source_report
        figure.page
      ∷ []
    else []

unfoldable pub figure_value : Tables → OfficialFigure → KeyItem → Option Float
unfolding compared annual_row rows_of
figure_value tables figure item =
    compared tables figure item (annual_row figure.fiscal_year none (rows_of item.table tables))

abbrev pub has_value : Option Float → ℕ
has_value none = 0
has_value (some v) = 1

abbrev pub with_value_of :
    Floats
    → OfficialFigure
    → Option (Option Float)
    → Option (List Violation × ℕ)
    → Option (List Violation × ℕ)
with_value_of f figure none rest = none
with_value_of f figure (some v) none = none
with_value_of f figure (some v) (some (violations, checked)) =
    some (difference f figure v ++ violations, has_value v + checked)

abbrev pub item_of : Text → Option KeyItem
item_of name = find? (λ k. text_eq k.item name) key_items

abbrev pub value_for : Tables → OfficialFigure → Option KeyItem → Option (Option Float)
value_for tables figure none = none
value_for tables figure (some item) = some (figure_value tables figure item)

-- The loop of `_official`; an item without a table is a KeyError.
unfoldable pub official_differences :
    Floats → Tables → List OfficialFigure → Option (List Violation × ℕ)
unfolding figure_value key_items
official_differences f tables [] = some ([], 0)
official_differences f tables (figure ∷ figures) =
    let rest = official_differences f tables figures in
    if is_basis figure.basis comparative
    then rest
    else with_value_of f figure (value_for tables figure (item_of figure.item)) rest

abbrev pub official_check : Option (List Violation × ℕ) → Option QualityCheck
official_check none = none
official_check (some (violations, checked)) = some (record {
  check_id = codes "Q-OFFICIAL";
  blocking = true;
  passed = is_empty violations;
  checked = checked;
  violations = take max_listed violations;
})

-- `_official`
unfoldable pub official : Floats → Tables → List OfficialFigure → Option QualityCheck
unfolding official_differences
official f tables figures = official_check (official_differences f tables figures)

abbrev pub is_covered : List ℕ → StatementRow → Bool
is_covered window row = is_annual row && is_in window row.fiscal_year

unfoldable pub unverified_rows : Text → List ℕ → List StatementRow → List Violation
unfolding text_eq
unverified_rows statement window [] = []
unverified_rows statement window (row ∷ rows) =
    let rest = unverified_rows statement window rows in
    if is_covered window row && is_basis row.basis unverified
    then unverified_row statement row.fiscal_year ∷ rest
    else rest

unfoldable pub unverified_of : List ℕ → Tables → List Violation
unfolding unverified_rows
unverified_of window [] = []
unverified_of window ((statement, rows) ∷ rest) =
    unverified_rows statement window rows ++ unverified_of window rest

-- `_basis_coverage`
unfoldable pub basis_coverage : Tables → List ℕ → QualityCheck
unfolding unverified_of
basis_coverage tables window =
    let total = count (is_covered window) (all_rows tables) in
    let violations = unverified_of window tables in
    record {
      check_id = codes "Q-BASIS";
      blocking = true;
      passed = leb 1 total && is_empty violations;
      checked = total;
      violations = take max_listed violations;
    }
