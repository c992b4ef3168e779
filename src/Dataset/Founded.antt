-- ===== src/Dataset/Founded.antt =====
-- What a basis rests on: `assign_basis` of app/app/application/securities/dataset/basis.py.
use info_backend.Prelude.{
  ℕ, ◌≡◌, refl, ◌⊎◌, Bool, true, false, not, Option, none, some, List, [], ◌∷◌, All, map, Text,
  text_eq, Bool-cases, inl, inr,
}
use info_backend.Rows.{All-append}
use info_backend.Dataset.Domain.{
  Floats, original, restated, unverified, comparative, is_basis, StatementRow, Tables,
  OfficialFigure,
}
use info_backend.Dataset.Basis.{
  annual, Values, Decision, by_original, has_any, originals, decide, assigned, assign_row,
  assign_basis, values_of,
}
use info_backend.Dataset.Evidence.{IsEvidence, column-IsGrouped, first_agreeing-IsEvidence}

-- What a decision rests on
unfoldable pub Founded : Floats → Values → List OfficialFigure → ℕ → Decision → Type 0
Founded f values figures year (unverified, none) = Unit
Founded f values figures year (original, some report) =
    IsEvidence f values figures year original report
Founded f values figures year (restated, some report) =
    IsEvidence f values figures year restated report
    ⊎ IsEvidence f values figures year comparative report
Founded f values figures year _ = false ≡ true

module _ (f : Floats) (values : Values) (figures : List OfficialFigure) (year : ℕ) where
  by_original-Founded :
      (disclosed : Bool) (first second third : Option Text)
      → ((report : Text) → first ≡ some report → IsEvidence f values figures year original report)
      → ((report : Text) → second ≡ some report → IsEvidence f values figures year restated report)
      → ((report : Text)
          → third ≡ some report
          → IsEvidence f values figures year comparative report)
      → Founded f values figures year (by_original disclosed first second third)
  unfolding Founded
  by_original-Founded disclosed (some report) second third h k l = h report refl
  by_original-Founded disclosed none (some report) third h k l = inl (k report refl)
  by_original-Founded true none none (some report) h k l = inr (l report refl)
  by_original-Founded true none none none h k l = tt
  by_original-Founded false none none third h k l = tt

  decide-Founded : Founded f values figures year (decide f year values figures)
  unfolding decide originals
  decide-Founded =
      by_original-Founded (has_any (originals year figures)) _ _ _
        (λ report e.
          first_agreeing-IsEvidence figures year original f values (originals year figures)
            (All-append _ _ _ (column-IsGrouped figures year original (some true))
              (column-IsGrouped figures year original (some false)))
            e)
        (λ report e.
          first_agreeing-IsEvidence figures year restated f values _
            (column-IsGrouped figures year restated none) e)
        (λ report e.
          first_agreeing-IsEvidence figures year comparative f values _
            (column-IsGrouped figures year comparative none) e)

-- A row that `assign_basis` leaves: it is verified exactly when it has a basis, which is founded.
unfoldable pub IsAssigned : Floats → Tables → List OfficialFigure → StatementRow → Type 0
IsAssigned f tables figures row =
    (row.verified ≡ not (is_basis row.basis unverified))
    × Founded f (values_of tables row.fiscal_year) figures row.fiscal_year
        (row.basis, row.verified_against)

-- The row is not annual, or it is assigned.
unfoldable pub IsDecided : Floats → Tables → List OfficialFigure → StatementRow → Type 0
IsDecided f tables figures row =
    (text_eq row.report_type annual ≡ false)
    ⊎ ((text_eq row.report_type annual ≡ true) × IsAssigned f tables figures row)

module _ (f : Floats) (tables : Tables) (figures : List OfficialFigure) where
  assign_row-IsDecided :
      (row : StatementRow) → IsDecided f tables figures (assign_row f tables figures row)
  unfolding assign_row assigned IsDecided IsAssigned
  assign_row-IsDecided row = elim (Bool-cases (text_eq row.report_type annual)) [
    | inl e ↦
        let founded = decide-Founded f (values_of tables row.fiscal_year) figures row.fiscal_year in
        rw e (inr (e, (refl, founded)))
    | inr e ↦ rw e (inl e)
  ]

  assigned_rows-IsDecided :
      (rows : List StatementRow)
      → All (IsDecided f tables figures) (map (assign_row f tables figures) rows)
  assigned_rows-IsDecided [] = tt
  assigned_rows-IsDecided (row ∷ rows) = (assign_row-IsDecided row, assigned_rows-IsDecided rows)

  assigned_tables-IsDecided :
      (l : Tables)
      → All
          (λ (entry : Text × List StatementRow). All (IsDecided f tables figures) entry.1)
          (map (λ entry. (entry.0, map (assign_row f tables figures) entry.1)) l)
  assigned_tables-IsDecided [] = tt
  assigned_tables-IsDecided (entry ∷ l) =
      (assigned_rows-IsDecided entry.1, assigned_tables-IsDecided l)

-- `assign_basis` decides every annual row: it is marked verified exactly when its basis is not the unverified
-- one. An original disclosure rests on a report that discloses figures of the row's year as original ones,
-- and a restatement on one that gives restated or comparative figures of it: the report's group of the
-- column of that basis has an entry for the item of every such figure with its day and its mark of revision,
-- at least three of the entries can be compared with the statements, and every one that can be compared is
-- close to the value there. An unverified row names no report.
pub assign_basis-IsDecided :
    (f : Floats) (tables : Tables) (figures : List OfficialFigure)
    → All
        (λ (entry : Text × List StatementRow). All (IsDecided f tables figures) entry.1)
        (assign_basis f tables figures)
unfolding assign_basis
assign_basis-IsDecided f tables figures = assigned_tables-IsDecided f tables figures tables
