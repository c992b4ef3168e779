-- ===== src/Dataset/Basis.antt =====
-- `assign_basis` of app/app/application/securities/dataset/basis.py: whose figures a year's rows are.
use info_backend.Prelude.{
  ℕ, Bool, true, false, not, ◌&&◌, Option, none, some, List, [], ◌∷◌, ◌++◌, map, all, filter_by,
  length, is_some, Text, text_eq, codes, ltb, ◌==◌, if◌then◌else◌,
}
use info_backend.Dataset.Domain.{
  Float, Floats, Basis, original, restated, unverified, comparative, is_basis, StatementRow,
  value_in, Tables, rows_of, OfficialFigure, balance_sheet, income_statement, cash_flow,
}
use info_backend.Dataset.Screening.{text_ltb}

-- `_ANNUAL`
abbrev pub annual : Text
annual = codes "年报"

-- `KEY_ITEMS`; the labels are read in the reports only.
pub record KeyItem : Type 0 where
  pub item : Text
  pub table : Text
  pub field : Text

abbrev key_item : Text → Text → KeyItem
key_item name table = record { item = name; table = table; field = name }

unfoldable pub key_items : List KeyItem
key_items =
    key_item (codes "operate_income") income_statement
    ∷ key_item (codes "total_profit") income_statement
    ∷ key_item (codes "parent_netprofit") income_statement
    ∷ key_item (codes "deduct_parent_netprofit") income_statement
    ∷ key_item (codes "netcash_operate") cash_flow
    ∷ key_item (codes "total_parent_equity") balance_sheet
    ∷ key_item (codes "total_assets") balance_sheet
    ∷ []

-- `dict[str, float]`
abbrev pub Values : Type 0
Values = List (Text × Float)

unfoldable pub find_value : {A : Type 0} → Text → List (Text × A) → Option A
find_value name [] = none
find_value name ((k, v) ∷ rest) =
    let later = find_value name rest in if text_eq k name then some v else later

unfoldable pub put_value : {A : Type 0} → Text → A → List (Text × A) → List (Text × A)
put_value name v [] = (name, v) ∷ []
put_value name v ((k, w) ∷ rest) =
    let later = (k, w) ∷ put_value name v rest in if text_eq k name then (k, v) ∷ rest else later

abbrev pub with_value : KeyItem → Option Float → Values → Values
with_value item none found = found
with_value item (some v) found = put_value item.item v found

abbrev pub is_annual_of : ℕ → StatementRow → Bool
is_annual_of year row = text_eq row.report_type annual && row.fiscal_year == year

unfoldable pub item_values : ℕ → KeyItem → List StatementRow → Values → Values
unfolding put_value value_in
item_values year item [] found = found
item_values year item (row ∷ rows) found = item_values year item rows (
    if is_annual_of year row then with_value item (value_in item.field row.values) found else found)

unfoldable pub values_from : Tables → ℕ → List KeyItem → Values → Values
unfolding item_values rows_of
values_from tables year [] found = found
values_from tables year (item ∷ items) found =
    values_from tables year items (item_values year item (rows_of item.table tables) found)

-- `_values`
unfoldable pub values_of : Tables → ℕ → Values
unfolding values_from key_items
values_of tables year = values_from tables year key_items []

-- The figures of a report: the number and its precision
abbrev pub Column : Type 0
Column = List (Text × (Float × Float))

abbrev pub min_items : ℕ
min_items = 3

abbrev pub is_common : Values → (Text × (Float × Float)) → Bool
is_common statement entry = is_some (find_value entry.0 statement)

abbrev pub is_close : Floats → Option Float → Float × Float → Bool
is_close f none figure = true
is_close f (some v) (w, precision) = f.le (f.abs (f.minus v w)) (f.maximum f.tolerance precision)

-- `_agrees`; `none` when too few items can be compared
unfoldable pub agrees : Floats → Values → Column → Option Bool
unfolding find_value
agrees f statement figures =
    let common = filter_by (is_common statement) figures in
    if ltb (length common) min_items
    then none
    else some (all (λ entry. is_close f (find_value entry.0 statement) entry.1) common)

abbrev pub same_flag : Bool → Bool → Bool
same_flag true b = b
same_flag false b = not b

-- The key of a group: the day of disclosure, whether the report is a revised one, and the report
pub record Group : Type 0 where
  pub disclosed_date : Text
  pub revised_report : Bool
  pub source_report : Text
  pub figures : Column

abbrev pub is_group : OfficialFigure → Group → Bool
is_group figure g =
    text_eq g.disclosed_date figure.disclosed_date
    && same_flag g.revised_report figure.revised_report
    && text_eq g.source_report figure.source_report

abbrev pub entry_of : OfficialFigure → Float × Float
entry_of figure = (figure.value, figure.precision)

-- `grouped.setdefault(key, {})[f.item] = ...`
unfoldable pub add_figure : OfficialFigure → List Group → List Group
unfolding put_value text_eq
add_figure figure [] =
    record {
      disclosed_date = figure.disclosed_date;
      revised_report = figure.revised_report;
      source_report = figure.source_report;
      figures = (figure.item, entry_of figure) ∷ [];
    }
    ∷ []
add_figure figure (g ∷ groups) =
    let later = g ∷ add_figure figure groups in
    if is_group figure g
    then record g { figures = put_value figure.item (entry_of figure) g.figures } ∷ groups
    else later

abbrev pub is_own : Option Bool → Bool → Bool
is_own none own = true
is_own (some b) own = same_flag b own

-- The figures that `column` does not pass over
abbrev pub is_of_column : ℕ → Basis → Option Bool → OfficialFigure → Bool
is_of_column year basis own figure =
    figure.fiscal_year == year
    && is_basis figure.basis basis
    && is_own own (figure.report_fiscal_year == year)

unfoldable pub group_figures : List OfficialFigure → List Group → List Group
unfolding add_figure
group_figures [] groups = groups
group_figures (figure ∷ figures) groups = group_figures figures (add_figure figure groups)

-- the order of the keys
abbrev pub is_earlier : Group → Group → Bool
is_earlier g h =
    if text_eq g.disclosed_date h.disclosed_date
    then if same_flag g.revised_report h.revised_report
      then text_ltb g.source_report h.source_report
      else h.revised_report
    else text_ltb g.disclosed_date h.disclosed_date

unfoldable pub insert_group : Group → List Group → List Group
unfolding text_eq text_ltb
insert_group g [] = g ∷ []
insert_group g (h ∷ groups) =
    let later = h ∷ insert_group g groups in if is_earlier h g then later else g ∷ h ∷ groups

unfoldable pub sort_groups : List Group → List Group
unfolding insert_group
sort_groups [] = []
sort_groups (g ∷ groups) = insert_group g (sort_groups groups)

-- `column`
unfoldable pub column : ℕ → List OfficialFigure → Basis → Option Bool → List Group
unfolding sort_groups group_figures
column year figures basis own =
    sort_groups (group_figures (filter_by (is_of_column year basis own) figures) [])

abbrev pub is_true : Option Bool → Bool
is_true none = false
is_true (some b) = b

-- The first report of a column whose figures agree
unfoldable pub first_agreeing : Floats → Values → List Group → Option Text
unfolding agrees
first_agreeing f statement [] = none
first_agreeing f statement (g ∷ groups) =
    let rest = first_agreeing f statement groups in
    if is_true (agrees f statement g.figures) then some g.source_report else rest

-- The basis of a year, and the report that it rests on
abbrev pub Decision : Type 0
Decision = Basis × Option Text

abbrev pub by_comparison : Option Text → Decision
by_comparison none = (unverified, none)
by_comparison (some report) = (restated, some report)

abbrev pub without_comparison : Bool → Option Text → Decision
without_comparison true found = by_comparison found
without_comparison false found = (unverified, none)

abbrev pub by_restatement : Bool → Option Text → Option Text → Decision
by_restatement disclosed (some report) comparison = (restated, some report)
by_restatement disclosed none comparison = without_comparison disclosed comparison

abbrev pub by_original : Bool → Option Text → Option Text → Option Text → Decision
by_original disclosed (some report) restatement comparison = (original, some report)
by_original disclosed none restatement comparison = by_restatement disclosed restatement comparison

abbrev pub has_any : List Group → Bool
has_any [] = false
has_any (g ∷ groups) = true

unfoldable pub originals : ℕ → List OfficialFigure → List Group
unfolding column
originals year figures =
    column year figures original (some true) ++ column year figures original (some false)

-- `_decide`
unfoldable pub decide : Floats → ℕ → Values → List OfficialFigure → Decision
unfolding first_agreeing originals column
decide f year statement figures =
    by_original (has_any (originals year figures))
      (first_agreeing f statement (originals year figures))
      (first_agreeing f statement (column year figures restated none))
      (first_agreeing f statement (column year figures comparative none))

-- The last loop of `assign_basis`. The values of a year are read before any row is written, and are not
-- touched by it.
unfoldable pub assigned : Decision → StatementRow → StatementRow
assigned (basis, against) row = record row {
  basis = basis;
  verified = not (is_basis basis unverified);
  verified_against = against;
}

unfoldable pub assign_row : Floats → Tables → List OfficialFigure → StatementRow → StatementRow
unfolding assigned decide values_of
assign_row f tables figures row =
    if text_eq row.report_type annual
    then assigned (decide f row.fiscal_year (values_of tables row.fiscal_year) figures) row
    else row

-- `assign_basis`: the rows that it leaves
unfoldable pub assign_basis : Floats → Tables → List OfficialFigure → Tables
unfolding assign_row
assign_basis f tables figures =
    map (λ entry. (entry.0, map (assign_row f tables figures) entry.1)) tables
