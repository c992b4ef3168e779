-- ===== src/Dataset/Reconciliation.antt =====
-- The residual of a rule, and the checks and violations that
-- app/app/application/securities/dataset/quality.py makes. The names and notes of checks, which are texts for
-- people, are left out.
use info_backend.Prelude.{
  ℕ, suc, Bool, true, false, ◌&&◌, Option, none, some, List, [], ◌∷◌, ◌++◌, take, is_none, leb,
  Text, codes, if◌then◌else◌,
}
use info_backend.Dataset.Domain.{
  Float, Floats, Basis, StatementRow, value_in, Tables, rows_of, Term, ReconciliationRule,
  reconciliation_rules,
}

-- One step of the loop of `_residual`
unfoldable pub add_term : Floats → Float → Term → Option Float → Option Float
add_term f total term (some v) = some (f.plus total (if term.is_positive then v else f.negate v))
add_term f total term none = if term.is_optional then some total else none

unfoldable pub add_terms : Floats → StatementRow → List Term → Float → Option Float
unfolding add_term value_in
add_terms f row [] total = some total
add_terms f row (term ∷ terms) total =
    elim (add_term f total term (value_in term.field row.values)) [
      | none ↦ none
      | some t ↦ add_terms f row terms t
    ]

-- `_residual`
unfoldable pub residual : Floats → ReconciliationRule → StatementRow → Option Float
unfolding add_terms
residual f rule row = add_terms f row rule.terms f.zero

-- A period that `screen` leaves out, with the rules that it breaks
pub record Excluded : Type 0 where
  pub report_date : Text
  pub report_type : Text
  pub rules : List (Text × Float)

pub record YearBreak : Type 0 where
  pub fiscal_year : ℕ
  pub diff : Float
  pub basis_previous : Basis
  pub basis_current : Basis
  pub outside_hard_window : Bool

-- The entries of `violations`
pub data Violation : Type 0 where
  no_period : Text → Violation
  repeated_period : Text → Text → Violation
  field_absent : Text → Text → Text → Violation
  unbalanced : Text → Text → Float → Violation
  discontinuous : YearBreak → Violation
  differs : ℕ → Text → Basis → Float → Float → Text → ℕ → Violation
  unverified_row : Text → ℕ → Violation
  undisclosed : ℕ → Violation
  stale : Text → ℕ → Violation
  excluded_period : Excluded → Violation
  old_continuity_break : YearBreak → Violation

pub record QualityCheck : Type 0 where
  pub check_id : Text
  pub blocking : Bool
  pub passed : Bool
  pub checked : ℕ
  pub violations : List Violation

abbrev pub max_listed : ℕ
max_listed = 20

-- `not violations`
abbrev pub is_empty {ℓ} : {A : Type ℓ} → List A → Bool
is_empty [] = true
is_empty (x ∷ xs) = false

abbrev pub exceeds : Floats → Float → Bool
exceeds f r = f.gt (f.abs r) f.tolerance

abbrev pub unbalanced_by : Floats → StatementRow → Option Float → List Violation
unbalanced_by f row none = []
unbalanced_by f row (some r) =
    if exceeds f r then unbalanced row.report_date row.report_type (f.round r) ∷ [] else []

-- The violations of a rule, and the number of rows that it applies to
unfoldable pub unbalanced_rows : Floats → ReconciliationRule → List StatementRow → List Violation
unfolding residual
unbalanced_rows f rule [] = []
unbalanced_rows f rule (row ∷ rows) =
    unbalanced_by f row (residual f rule row) ++ unbalanced_rows f rule rows

unfoldable pub applicable : Floats → ReconciliationRule → List StatementRow → ℕ
unfolding residual
applicable f rule [] = 0
applicable f rule (row ∷ rows) =
    let rest = applicable f rule rows in if is_none (residual f rule row) then rest else suc rest

unfoldable pub rule_check : Floats → ReconciliationRule → List StatementRow → QualityCheck
unfolding unbalanced_rows applicable
rule_check f rule rows =
    let violations = unbalanced_rows f rule rows in
    let checked = applicable f rule rows in
    record {
      check_id = codes "Q-" ++ rule.rule_id;
      blocking = true;
      passed = is_empty violations && leb 1 checked;
      checked = checked;
      violations = take max_listed violations;
    }

unfoldable pub rule_checks : Floats → Tables → List ReconciliationRule → List QualityCheck
unfolding rule_check rows_of
rule_checks f tables [] = []
rule_checks f tables (rule ∷ rules) =
    rule_check f rule (rows_of rule.source_table tables) ∷ rule_checks f tables rules

-- `_reconciliation`
unfoldable pub reconciliation : Floats → Tables → List QualityCheck
unfolding rule_checks reconciliation_rules
reconciliation f tables = rule_checks f tables reconciliation_rules
