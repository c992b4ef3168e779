-- ===== src/Dataset/Continuity.antt =====
-- `_continuity` of app/app/application/securities/dataset/quality.py: the cash from year to year.
use info_backend.Prelude.{
  ℕ, suc, Bool, true, false, ◌||◌, Option, none, some, List, [], ◌∷◌, ◌++◌, take, map, filter_by,
  sort_by, codes, ltb, ◌==◌, if◌then◌else◌,
}
use info_backend.Dataset.Domain.{
  Float, Floats, restated, is_basis, StatementRow, value_in, Tables, rows_of, cash_flow,
}
use info_backend.Dataset.Reconciliation.{
  discontinuous, YearBreak, QualityCheck, max_listed, is_empty,
}
use info_backend.Dataset.Structure.{is_annual}

-- What `_continuity` sorts its years into
pub record Breaks : Type 0 where
  pub unexplained : List YearBreak
  pub explained : List YearBreak
  pub old : List YearBreak
  pub checked : ℕ

abbrev pub is_before : Option ℕ → ℕ → Bool
is_before none y = false
is_before (some first) y = ltb y first

-- The end of the loop's body
unfoldable pub sort_break :
    Floats → Option ℕ → StatementRow → StatementRow → Float → Breaks → Breaks
sort_break f first previous current diff b =
    let entry : YearBreak = record {
      fiscal_year = current.fiscal_year;
      diff = f.round diff;
      basis_previous = previous.basis;
      basis_current = current.basis;
      outside_hard_window = false;
    } in
    if is_basis previous.basis restated || is_basis current.basis restated
    then record b { explained = entry ∷ b.explained }
    else if is_before first current.fiscal_year
    then record b { old = record entry { outside_hard_window = true } ∷ b.old }
    else record b { unexplained = entry ∷ b.unexplained }

unfoldable pub compare_cash :
    Floats → Option ℕ → StatementRow → StatementRow → Option Float → Option Float → Breaks → Breaks
unfolding sort_break
compare_cash f first previous current (some begin) (some end) b =
    let diff = f.minus begin end in
    let counted = record b { checked = suc b.checked } in
    if f.le (f.abs diff) f.tolerance
    then counted
    else sort_break f first previous current diff counted
compare_cash f first previous current _ _ b = b

-- The loop over the pairs of years; the lists are built from the last pair on.
unfoldable pub compare_years : Floats → Option ℕ → StatementRow → List StatementRow → Breaks
unfolding compare_cash value_in
compare_years f first previous [] = record {
  unexplained = [];
  explained = [];
  old = [];
  checked = 0;
}
compare_years f first previous (current ∷ rows) =
    let rest = compare_years f first current rows in
    if current.fiscal_year == suc previous.fiscal_year
    then compare_cash f first previous current (value_in (codes "begin_cce") current.values)
        (value_in (codes "end_cce") previous.values) rest
    else rest

abbrev pub breaks_of : Floats → Option ℕ → List StatementRow → Breaks
breaks_of f first [] = record { unexplained = []; explained = []; old = []; checked = 0 }
breaks_of f first (row ∷ rows) = compare_years f first row rows

-- `annual`
unfoldable pub annual_cash : Tables → List StatementRow
unfolding rows_of
annual_cash tables = sort_by (λ r. r.fiscal_year) (filter_by is_annual (rows_of cash_flow tables))

-- `_continuity`
unfoldable pub continuity : Floats → Tables → Option ℕ → QualityCheck
unfolding compare_years annual_cash
continuity f tables first =
    let b = breaks_of f first (annual_cash tables) in
    record {
      check_id = codes "Q-CONT";
      blocking = true;
      passed = is_empty b.unexplained;
      checked = b.checked;
      violations = take max_listed (map discontinuous (b.unexplained ++ b.explained ++ b.old));
    }
