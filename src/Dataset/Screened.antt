-- ===== src/Dataset/Screened.antt =====
-- What `screen` of app/app/application/securities/dataset/quality.py leaves of the rows.
use info_backend.Prelude.{
  ℕ, ◌+◌, ◌-◌, ◌≡◌, refl, sym, subst, ap, ◌∙◌, Bool, true, false, Option, none, some, List, [], ◌∷◌,
  ◌++◌, arith, All, filter_by, Text, text_eq, text_eq_iff, Bool-cases, inl, inr, leb, ltb,
}
use info_backend.Rows.{All-append}
use info_backend.Dataset.Domain.{
  Floats, Float, StatementRow, Tables, rows_of, all_rows, ReconciliationRule, reconciliation_rules,
}
use info_backend.Dataset.Reconciliation.{residual, exceeds}
use info_backend.Dataset.Screening.{
  Screening, Break, break_by, breaks_in, breaks, is_dropped, is_kept, latest_year, screen_rows,
  screen,
}
use info_backend.Dataset.Clean.{some_injective}
use info_backend.Dataset.Left.{Clean, Within-refl, rows_of-kept, breaks-found}

abbrev pub is_hard : ℕ → StatementRow → Bool
is_hard first row = leb first row.fiscal_year

-- The year of a row is told by its date.
abbrev pub DatedBy : (Text → ℕ) → List StatementRow → Type 0
DatedBy year rows = All (λ row. row.fiscal_year ≡ year row.report_date) rows

All-split : {A : Type 0} (P : A → Type 0) (l m : List A) → All P (l ++ m) → All P l × All P m
All-split P [] m h = (tt, h)
All-split P (x ∷ l) m h = let (first, rest) = All-split P l m h.1 in ((h.0, first), rest)

rows_of-All :
    (P : StatementRow → Type 0) (name : Text) (tables : Tables)
    → All P (all_rows tables)
    → All P (rows_of name tables)
unfolding rows_of
rows_of-All P name [] h = tt
rows_of-All P name ((k, rows) ∷ tables) h =
    let (here, later) = All-split P rows (all_rows tables) h in
    elim (Bool-cases (text_eq k name)) [
      | inl same ↦ rw same here
      | inr other ↦ rw other (rows_of-All P name tables later)
    ]

module _ (f : Floats) (first : ℕ) (year : Text → ℕ) where
  abbrev IsOld : Break → Type 0
  IsOld b = leb first (year b.report_date) ≡ false

  break_by-IsOld :
      (rule : ReconciliationRule) (row : StatementRow) (o : Option Float)
      → leb first (year row.report_date) ≡ false
      → All IsOld (break_by f rule row o)
  break_by-IsOld rule row none h = tt
  break_by-IsOld rule row (some r) h = elim (Bool-cases (exceeds f r)) [
    | inl e ↦ rw e (h, tt)
    | inr e ↦ rw e tt
  ]

  breaks_in-IsOld :
      (rule : ReconciliationRule) (rows : List StatementRow)
      → DatedBy year rows
      → All IsOld (breaks_in f first rule rows)
  unfolding breaks_in
  breaks_in-IsOld rule [] h = tt
  breaks_in-IsOld rule (row ∷ rows) h = elim (Bool-cases (leb first row.fiscal_year)) [
    | inl e ↦ rw e (breaks_in-IsOld rule rows h.1)
    | inr e ↦
        let old : leb first (year row.report_date) ≡ false = rw (sym h.0) e in
        rw e (
          All-append IsOld _ _ (break_by-IsOld rule row (residual f rule row) old)
            (breaks_in-IsOld rule rows h.1))
  ]

  breaks-IsOld :
      (tables : Tables) (rules : List ReconciliationRule)
      → DatedBy year (all_rows tables)
      → All IsOld (breaks f first tables rules)
  unfolding breaks
  breaks-IsOld tables [] h = tt
  breaks-IsOld tables (rule ∷ rules) h =
      All-append IsOld _ _
        (breaks_in-IsOld rule (rows_of rule.source_table tables)
          (rows_of-All _ rule.source_table tables h))
        (breaks-IsOld tables rules h)

  hard-stays :
      (d : Text) (found : List Break)
      → All IsOld found
      → leb first (year d) ≡ true
      → is_dropped found d ≡ false
  hard-stays d [] h hard = refl
  hard-stays d (b ∷ found) h hard = elim (Bool-cases (text_eq b.report_date d)) [
    | inl same ↦
        let e : b.report_date ≡ d = ground (arith, same, text_eq_iff b.report_date d) in
        let clash : false ≡ true = sym h.0 ∙ ap (λ z. leb first (year z)) e ∙ hard in cc
    | inr other ↦ rw other (hard-stays d found h.1 hard)
  ]

  hard-kept :
      (found : List Break) (rows : List StatementRow)
      → All IsOld found
      → DatedBy year rows
      → filter_by (is_hard first) (filter_by (is_kept found) rows) ≡ filter_by (is_hard first) rows
  hard-kept found [] old h = refl
  hard-kept found (row ∷ rows) old h = elim (Bool-cases (leb first row.fiscal_year)) [
    | inl hard ↦
        let stays = hard-stays row.report_date found old (rw (sym h.0) hard) in
        rw stays (rw hard (ap (λ l. row ∷ l) (hard-kept found rows old h.1)))
    | inr early ↦ elim (Bool-cases (is_dropped found row.report_date)) [
      | inl gone ↦ rw gone (rw early (hard-kept found rows old h.1))
      | inr stays ↦ rw stays (rw early (hard-kept found rows old h.1))
    ]
  ]

-- What is left is clean before the window, and the window is as it was.
unfoldable pub IsScreened : Floats → Tables → Screening → Option ℕ → Type 0
IsScreened f tables s none = s.rows ≡ tables
IsScreened f tables s (some first) =
    All (Clean f first s.rows) reconciliation_rules
    × ((name : Text)
        → filter_by (is_hard first) (rows_of name s.rows)
          ≡ filter_by (is_hard first) (rows_of name tables))

screen_rows-IsScreened :
    (f : Floats) (tables : Tables) (hard_years : ℕ) (year : Text → ℕ) (rows : List StatementRow)
    → DatedBy year (all_rows tables)
    → let s = screen_rows f tables hard_years rows in IsScreened f tables s s.first_hard_year
unfolding screen_rows IsScreened
screen_rows-IsScreened f tables hard_years year [] h = refl
screen_rows-IsScreened f tables hard_years year (row ∷ rows) h =
    let first = latest_year (row ∷ rows) + 1 - hard_years in
    let found = breaks f first tables reconciliation_rules in
    (
      breaks-found f first tables found reconciliation_rules (Within-refl found),
      λ name.
          ap (filter_by (is_hard first)) (rows_of-kept name found tables)
          ∙ hard-kept f first year found (rows_of name tables)
              (breaks-IsOld f first year tables reconciliation_rules h)
              (rows_of-All _ name tables h),
    )

-- After the screening no row before the hard window is out of balance by a rule of its statement, and the
-- rows of the window are as they were, in their order, whether they balance or not; without any row
-- nothing changes. The date of a row must tell its year, as the parser of the statements has it.
pub screen-IsScreened :
    (f : Floats) (tables : Tables) (hard_years : ℕ) (year : Text → ℕ) {s : Screening}
    → DatedBy year (all_rows tables)
    → screen f tables hard_years ≡ some s
    → IsScreened f tables s s.first_hard_year
unfolding screen
screen-IsScreened f tables hard_years year {s} h e = elim (Bool-cases (ltb hard_years 1)) [
  | inl bad ↦ let clash : none ≡ some s = rw bad at e in cc
  | inr fine ↦
      let same : screen_rows f tables hard_years (all_rows tables) ≡ s =
        some_injective (rw fine at e) in
      subst (λ z. IsScreened f tables z z.first_hard_year) same
        (screen_rows-IsScreened f tables hard_years year (all_rows tables) h)
]
