-- ===== src/Dataset/Left.antt =====
-- What `screen` of app/app/application/securities/dataset/quality.py finds: no period that breaks a rule is left.
use info_backend.Prelude.{
  ℕ, ◌≡◌, refl, ◌∙◌, Bool, true, false, ◌||◌, Option, none, some, List, [], ◌∷◌, ◌++◌, arith, All,
  any, filter_by, Text, text_eq, text_eq_iff, Bool-cases, inl, inr, leb,
}
use info_backend.Dataset.Domain.{Floats, Float, StatementRow, Tables, rows_of, ReconciliationRule}
use info_backend.Dataset.Reconciliation.{residual}
use info_backend.Dataset.Screening.{
  Break, break_by, breaks_in, breaks, has_date, is_dropped, is_kept, kept,
}
use info_backend.Dataset.Clean.{is_balanced}

-- A row is in the hard window, or it balances.
abbrev pub is_clean : Floats → ℕ → ReconciliationRule → StatementRow → Bool
is_clean f first rule row = leb first row.fiscal_year || is_balanced f (residual f rule row)

-- Of the rows of the rule's statement none is out of balance before the window.
abbrev pub Clean : Floats → ℕ → Tables → ReconciliationRule → Type 0
Clean f first tables rule =
    All (λ row. is_clean f first rule row ≡ true) (rows_of rule.source_table tables)

any-or : {A : Type 0} (p : A → Bool) (l m : List A) → any p (l ++ m) ≡ (any p l || any p m)
any-or p [] m = refl
any-or p (x ∷ l) m = ground (arith, any-or p l m)

text_eq_refl : (t : Text) → text_eq t t ≡ true
text_eq_refl t = (text_eq_iff t t).1 refl

break_by-any :
    (f : Floats) (rule : ReconciliationRule) (row : StatementRow) (o : Option Float)
    → is_balanced f o ≡ false
    → any (has_date row.report_date) (break_by f rule row o) ≡ true
break_by-any f rule row none h = cc
break_by-any f rule row (some r) h = ground (arith, h, text_eq_refl row.report_date)

-- Every date of the first list is one of the second.
unfoldable pub Within : List Break → List Break → Type 0
Within l m = (d : Text) → is_dropped l d ≡ true → is_dropped m d ≡ true

Within-left : (l m found : List Break) → Within (l ++ m) found → Within l found
unfolding Within
Within-left l m found h d e = h d (any-or (has_date d) l m ∙ ground (arith, e))

Within-right : (l m found : List Break) → Within (l ++ m) found → Within m found
unfolding Within
Within-right l m found h d e = h d (any-or (has_date d) l m ∙ ground (arith, e))

pub Within-refl : (l : List Break) → Within l l
unfolding Within
Within-refl l d e = e

found_date :
    (l found : List Break) (d : Text)
    → Within l found
    → is_dropped l d ≡ true
    → is_dropped found d ≡ true
unfolding Within
found_date l found d h e = h d e

-- A row before the window that does not balance is found.
breaks_in-found :
    (f : Floats) (first : ℕ) (rule : ReconciliationRule) (found : List Break)
    (rows : List StatementRow)
    → Within (breaks_in f first rule rows) found
    → All (λ row. is_kept found row ≡ true → is_clean f first rule row ≡ true) rows
unfolding breaks_in
breaks_in-found f first rule found [] h = tt
breaks_in-found f first rule found (row ∷ rows) h = elim (Bool-cases (leb first row.fiscal_year)) [
  | inl hard ↦ (λ k. rw hard refl, breaks_in-found f first rule found rows (rw hard at h))
  | inr old ↦
      let here = break_by f rule row (residual f rule row) in
      let both : Within (here ++ breaks_in f first rule rows) found = rw old at h in
      (
        λ k. elim (Bool-cases (is_balanced f (residual f rule row))) [
          | inl fine ↦ rw old (rw fine refl)
          | inr bad ↦
              let gone =
                found_date here found row.report_date (Within-left here _ found both)
                  (break_by-any f rule row (residual f rule row) bad) in
              let clash : false ≡ true = rw gone at k in cc
        ],
        breaks_in-found f first rule found rows (Within-right here _ found both),
      )
]

-- What is kept of a list
All-kept :
    (P : StatementRow → Type 0) (p : StatementRow → Bool) (rows : List StatementRow)
    → All (λ row. p row ≡ true → P row) rows
    → All P (filter_by p rows)
All-kept P p [] h = tt
All-kept P p (x ∷ rows) h = elim (Bool-cases (p x)) [
  | inl k ↦ rw k (h.0 k, All-kept P p rows h.1)
  | inr k ↦ rw k (All-kept P p rows h.1)
]

pub rows_of-kept :
    (name : Text) (found : List Break) (tables : Tables)
    → rows_of name (kept found tables) ≡ filter_by (is_kept found) (rows_of name tables)
unfolding rows_of
rows_of-kept name found [] = refl
rows_of-kept name found ((k, rows) ∷ tables) = elim (Bool-cases (text_eq k name)) [
  | inl same ↦ rw same refl
  | inr other ↦ rw other (rows_of-kept name found tables)
]

pub breaks-found :
    (f : Floats) (first : ℕ) (tables : Tables) (found : List Break)
    (rules : List ReconciliationRule)
    → Within (breaks f first tables rules) found
    → All (Clean f first (kept found tables)) rules
unfolding breaks
breaks-found f first tables found [] h = tt
breaks-found f first tables found (rule ∷ rules) h =
    let rows = rows_of rule.source_table tables in
    let here = breaks_in f first rule rows in
    let clean = breaks_in-found f first rule found rows (Within-left here _ found h) in
    (
      rw (rows_of-kept rule.source_table found tables) (All-kept _ (is_kept found) rows clean),
      breaks-found f first tables found rules (Within-right here _ found h),
    )
