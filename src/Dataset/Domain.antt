-- ===== src/Dataset/Domain.antt =====
-- The rows, figures and checks of a data set: app/app/domain/securities/dataset.py, with the rules of
-- app/app/domain/securities/financial_catalog.py.
use info_backend.Prelude.{
  ℕ, Bool, true, false, Option, none, List, [], ◌∷◌, ◌++◌, Text, text_eq, codes, if◌then◌else◌,
}

-- The bits of a `float`; what Python computes with them is a parameter.
abbrev pub Float : Type 0
Float = ℕ

pub record Floats : Type 0 where
  pub zero : Float
  pub tolerance : Float
  pub negate : Float → Float
  pub plus : Float → Float → Float
  pub minus : Float → Float → Float
  pub abs : Float → Float
  pub round : Float → Float
  pub maximum : Float → Float → Float
  pub gt : Float → Float → Bool
  pub le : Float → Float → Bool

-- `BASIS_ORIGINAL`, `BASIS_RESTATED`, `BASIS_UNVERIFIED` and `BASIS_COMPARATIVE`
pub data Basis : Type 0 where
  original restated unverified comparative : Basis

abbrev pub is_basis : Basis → Basis → Bool
is_basis original original = true
is_basis restated restated = true
is_basis unverified unverified = true
is_basis comparative comparative = true
is_basis _ _ = false

pub record StatementRow : Type 0 where
  pub statement : Text
  pub security_code : Text
  pub report_date : Text
  pub report_type : Text
  pub fiscal_year : ℕ
  pub aggregator_notice_date : Option Text
  pub currency : Option Text
  pub values : List (Text × Option Float)
  pub basis : Basis
  pub verified : Bool
  pub verified_against : Option Text

-- `row.values.get(name)`
unfoldable pub value_in : Text → List (Text × Option Float) → Option Float
value_in name [] = none
value_in name ((k, v) ∷ rest) =
    let later = value_in name rest in if text_eq k name then v else later

-- `dict[str, list[StatementRow]]`
abbrev pub Tables : Type 0
Tables = List (Text × List StatementRow)

-- `tables.get(name) or []`
unfoldable pub rows_of : Text → Tables → List StatementRow
rows_of name [] = []
rows_of name ((k, rows) ∷ rest) =
    let later = rows_of name rest in if text_eq k name then rows else later

-- the rows of all statements
abbrev pub all_rows : Tables → List StatementRow
all_rows [] = []
all_rows ((k, rows) ∷ rest) = rows ++ all_rows rest

pub record OfficialFigure : Type 0 where
  pub fiscal_year : ℕ
  pub item : Text
  pub value : Float
  pub basis : Basis
  pub column_label : Text
  pub source_report : Text
  pub report_fiscal_year : ℕ
  pub disclosed_date : Text
  pub page : ℕ
  pub revised_report : Bool
  pub precision : Float

pub record DisclosureEntry : Type 0 where
  pub fiscal_year : ℕ
  pub report_type : Text
  pub title : Text
  pub official_disclosed_date : Text
  pub announcement_id : Text
  pub revised : Bool
  pub source : Text
  pub artifact_sha256 : Text

-- A term of a rule: the field, whether it counts positive, and whether it may be absent.
pub record Term : Type 0 where
  pub field : Text
  pub is_positive : Bool
  pub is_optional : Bool

pub record ReconciliationRule : Type 0 where
  pub rule_id : Text
  pub source_table : Text
  pub terms : List Term

abbrev plus_term : Text → Term
plus_term name = record { field = name; is_positive = true; is_optional = false }

abbrev minus_term : Text → Term
minus_term name = record { field = name; is_positive = false; is_optional = false }

abbrev optional_term : Bool → Text → Term
optional_term positive name = record { field = name; is_positive = positive; is_optional = true }

abbrev rule : Text → Text → List Term → ReconciliationRule
rule id table terms = record { rule_id = id; source_table = table; terms = terms }

abbrev pub balance_sheet : Text
balance_sheet = codes "balance_sheet"

abbrev pub income_statement : Text
income_statement = codes "income_statement"

abbrev pub cash_flow : Text
cash_flow = codes "cash_flow"

-- The keys of `STATEMENT_FIELDS`
abbrev pub statements : List Text
statements = balance_sheet ∷ income_statement ∷ cash_flow ∷ []

-- `RECONCILIATION_RULES`
unfoldable pub reconciliation_rules : List ReconciliationRule
reconciliation_rules =
    rule (codes "R01") balance_sheet (
      plus_term (codes "total_assets")
      ∷ minus_term (codes "total_liabilities")
      ∷ minus_term (codes "total_equity")
      ∷ [])
    ∷ rule (codes "R02") balance_sheet
        (plus_term (codes "total_assets") ∷ minus_term (codes "total_liab_equity") ∷ [])
    ∷ rule (codes "R03") balance_sheet (
        plus_term (codes "total_equity")
        ∷ minus_term (codes "total_parent_equity")
        ∷ optional_term false (codes "minority_equity")
        ∷ [])
    ∷ rule (codes "R04") balance_sheet (
        plus_term (codes "total_assets")
        ∷ minus_term (codes "total_current_assets")
        ∷ minus_term (codes "total_noncurrent_assets")
        ∷ [])
    ∷ rule (codes "R05") balance_sheet (
        plus_term (codes "total_liabilities")
        ∷ minus_term (codes "total_current_liab")
        ∷ minus_term (codes "total_noncurrent_liab")
        ∷ [])
    ∷ rule (codes "R06") income_statement (
        plus_term (codes "netprofit")
        ∷ minus_term (codes "parent_netprofit")
        ∷ optional_term false (codes "minority_interest")
        ∷ [])
    ∷ rule (codes "R07") income_statement (
        plus_term (codes "netprofit")
        ∷ minus_term (codes "total_profit")
        ∷ optional_term true (codes "income_tax")
        ∷ [])
    ∷ rule (codes "R08") cash_flow (
        plus_term (codes "cce_add")
        ∷ minus_term (codes "netcash_operate")
        ∷ minus_term (codes "netcash_invest")
        ∷ minus_term (codes "netcash_finance")
        ∷ optional_term false (codes "rate_change_effect")
        ∷ [])
    ∷ rule (codes "R09") cash_flow (
        plus_term (codes "end_cce")
        ∷ minus_term (codes "begin_cce")
        ∷ minus_term (codes "cce_add")
        ∷ [])
    ∷ []
