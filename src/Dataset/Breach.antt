-- ===== src/Dataset/Breach.antt =====
-- The rules that `screen` of app/app/application/securities/dataset/quality.py names for a period: each is
-- broken by a row of the period.
use info_backend.Prelude.{
  false, Option, ℕ, ◌≡◌, refl, subst, true, none, some, List, [], ◌∷◌, All, filter_by, map, Text,
  text_eq, text_eq_iff, Bool-cases, inl, inr, leb,
}
use info_backend.Dataset.Domain.{
  Float, ReconciliationRule, rows_of, Floats, StatementRow, Tables, reconciliation_rules,
}
use info_backend.Dataset.Reconciliation.{residual, exceeds}
use info_backend.Rows.{All-append, All-Among, Among}
use info_backend.Dataset.Screening.{Break, break_by, breaks_in, has_date, excluded_by, breaks}

-- A rule, with a residual, that a row of the date before the hard window breaks.
pub record IsBreach (f : Floats) (first : ℕ) (tables : Tables) (date : Text) (entry : Text × Float)
    : Type 0 where
  pub rule : ReconciliationRule
  pub known : Among rule reconciliation_rules
  pub row : StatementRow
  pub there : Among row (rows_of rule.source_table tables)
  pub of_date : row.report_date ≡ date
  pub is_old : leb first row.fiscal_year ≡ false
  pub amount : Float
  pub off_by : residual f rule row ≡ some amount
  pub too_large : exceeds f amount ≡ true
  pub names : entry.0 ≡ rule.rule_id
  pub shows : entry.1 ≡ f.round amount

module _ (f : Floats) (first : ℕ) (tables : Tables) where
  abbrev pub IsFound : Break → Type 0
  IsFound b = IsBreach f first tables b.report_date (b.rule_id, b.rounded)

  break_by-IsFound :
      (rule : ReconciliationRule) (row : StatementRow) (o : Option Float)
      → Among rule reconciliation_rules
      → Among row (rows_of rule.source_table tables)
      → leb first row.fiscal_year ≡ false
      → residual f rule row ≡ o
      → All IsFound (break_by f rule row o)
  break_by-IsFound rule row none k there old e = tt
  break_by-IsFound rule row (some r) k there old e = elim (Bool-cases (exceeds f r)) [
    | inl large ↦ rw large (
      record {
        rule = rule;
        known = k;
        row = row;
        there = there;
        of_date = refl;
        is_old = old;
        amount = r;
        off_by = e;
        too_large = large;
        names = refl;
        shows = refl;
      },
      tt,
    )
    | inr small ↦ rw small tt
  ]

  breaks_in-IsFound :
      (rule : ReconciliationRule) (rows : List StatementRow)
      → Among rule reconciliation_rules
      → All (λ row. Among row (rows_of rule.source_table tables)) rows
      → All IsFound (breaks_in f first rule rows)
  unfolding breaks_in
  breaks_in-IsFound rule [] k h = tt
  breaks_in-IsFound rule (row ∷ rows) k h = elim (Bool-cases (leb first row.fiscal_year)) [
    | inl e ↦ rw e (breaks_in-IsFound rule rows k h.1)
    | inr e ↦ rw e (
        All-append IsFound _ _ (break_by-IsFound rule row _ k h.0 e refl)
          (breaks_in-IsFound rule rows k h.1))
  ]

  pub breaks-IsFound :
      (rules : List ReconciliationRule)
      → All (λ rule. Among rule reconciliation_rules) rules
      → All IsFound (breaks f first tables rules)
  unfolding breaks
  breaks-IsFound [] k = tt
  breaks-IsFound (rule ∷ rules) k =
      let rows = rows_of rule.source_table tables in
      All-append IsFound _ _ (breaks_in-IsFound rule rows k.0 (All-Among rows))
        (breaks-IsFound rules k.1)

  rules-IsBreach :
      (date : Text) (found : List Break)
      → All IsFound found
      → All
          (IsBreach f first tables date)
          (map (λ b. (b.rule_id, b.rounded)) (filter_by (has_date date) found))
  rules-IsBreach date [] h = tt
  rules-IsBreach date (b ∷ found) h = elim (Bool-cases (text_eq b.report_date date)) [
    | inl same ↦
        let e : b.report_date ≡ date = (text_eq_iff b.report_date date).0 same in
        rw same (
          subst (λ z. IsBreach f first tables z (b.rule_id, b.rounded)) e h.0,
          rules-IsBreach date found h.1,
        )
    | inr other ↦ rw other (rules-IsBreach date found h.1)
  ]

  pub excluded-IsBreach :
      (found : List Break) (l : List Text)
      → All IsFound found
      → All (λ e. All (IsBreach f first tables e.report_date) e.rules) (map (excluded_by found) l)
  unfolding excluded_by
  excluded-IsBreach found [] h = tt
  excluded-IsBreach found (d ∷ l) h = (rules-IsBreach d found h, excluded-IsBreach found l h)
