-- ===== src/Dataset/Structure.antt =====
-- `_structure` of app/app/application/securities/dataset/quality.py: rows, dates and required fields.
use info_backend.Prelude.{
  ℕ, ◌+◌, Bool, true, ◌&&◌, List, [], ◌∷◌, ◌++◌, take, any, length, is_none, Text, text_eq, codes,
  contains, ◌==◌, if◌then◌else◌,
}
use info_backend.Dataset.Domain.{
  StatementRow, value_in, Tables, rows_of, statements, balance_sheet, income_statement,
}
use info_backend.Dataset.Reconciliation.{
  Violation, no_period, repeated_period, field_absent, QualityCheck, max_listed, is_empty,
}
use info_backend.Dataset.Basis.{annual}

abbrev pub is_annual : StatementRow → Bool
is_annual row = text_eq row.report_type annual

abbrev pub is_in : List ℕ → ℕ → Bool
is_in window y = any (λ z. z == y) window

-- `_REQUIRED`
abbrev pub required : Text → List Text
required statement =
    if text_eq statement balance_sheet
    then codes "total_assets" ∷ codes "total_liabilities" ∷ codes "total_equity" ∷ []
    else if text_eq statement income_statement
    then codes "operate_income" ∷ codes "netprofit" ∷ codes "parent_netprofit" ∷ []
    else codes "netcash_operate" ∷ codes "cce_add" ∷ codes "end_cce" ∷ []

unfoldable pub absent_fields : Text → StatementRow → List Text → List Violation
unfolding value_in
absent_fields statement row [] = []
absent_fields statement row (name ∷ names) =
    let rest = absent_fields statement row names in
    if is_none (value_in name row.values)
    then field_absent statement row.report_date name ∷ rest
    else rest

abbrev pub repeated : Text → List Text → StatementRow → List Violation
repeated statement seen row =
    if contains seen row.report_date then repeated_period statement row.report_date ∷ [] else []

abbrev pub absent_in : Text → List ℕ → StatementRow → List Violation
absent_in statement window row =
    if is_annual row && is_in window row.fiscal_year
    then absent_fields statement row (required statement)
    else []

-- The loop over the rows of a statement
unfoldable pub structure_rows : Text → List ℕ → List Text → List StatementRow → List Violation
unfolding absent_fields contains text_eq
structure_rows statement window seen [] = []
structure_rows statement window seen (row ∷ rows) =
    repeated statement seen row
    ++ absent_in statement window row
    ++ structure_rows statement window (row.report_date ∷ seen) rows

abbrev pub structure_of : Text → List ℕ → List StatementRow → List Violation
structure_of statement window [] = no_period statement ∷ []
structure_of statement window (row ∷ rows) = structure_rows statement window [] (row ∷ rows)

unfoldable pub structure_violations : Tables → List ℕ → List Text → List Violation
unfolding structure_rows rows_of
structure_violations tables window [] = []
structure_violations tables window (statement ∷ more) =
    structure_of statement window (rows_of statement tables)
    ++ structure_violations tables window more

unfoldable pub row_count : Tables → List Text → ℕ
unfolding rows_of
row_count tables [] = 0
row_count tables (statement ∷ more) = length (rows_of statement tables) + row_count tables more

-- `_structure`
unfoldable pub structure : Tables → List ℕ → QualityCheck
unfolding structure_violations row_count
structure tables window =
    let violations = structure_violations tables window statements in
    record {
      check_id = codes "Q-STRUCT";
      blocking = true;
      passed = is_empty violations;
      checked = row_count tables statements;
      violations = take max_listed violations;
    }
