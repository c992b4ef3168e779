-- ===== src/Dataset/Clean.antt =====
-- What each check says when it passes: app/app/application/securities/dataset/quality.py.
use info_backend.Prelude.{
  ℕ, ◌≡◌, refl, ap, Bool, true, false, not, ◌&&◌, ◌||◌, Option, none, some, List, [], ◌∷◌, ◌++◌,
  arith, All, contains, Text, text_eq, Bool-cases, inl, inr,
}
use info_backend.Dataset.Domain.{
  Float, Floats, is_basis, unverified, comparative, StatementRow, Tables, rows_of, OfficialFigure,
  ReconciliationRule,
}
use info_backend.Dataset.Reconciliation.{
  QualityCheck, Violation, is_empty, exceeds, residual, unbalanced_by, unbalanced_rows, rule_check,
  rule_checks,
}
use info_backend.Dataset.Structure.{
  structure_of, structure_rows, structure_violations, repeated, absent_in,
}
use info_backend.Dataset.Official.{
  official_differences, with_value_of, value_for, item_of, difference, unverified_of,
  unverified_rows, is_covered,
}
use info_backend.Dataset.Quality.{passed}

-- A residual that can be computed is within the tolerance.
abbrev pub is_balanced : Floats → Option Float → Bool
is_balanced f none = true
is_balanced f (some r) = not (exceeds f r)

-- A value that can be compared is within the tolerance and the precision of the figure.
abbrev pub is_agreed : Floats → OfficialFigure → Option Float → Bool
is_agreed f figure none = true
is_agreed f figure (some v) =
    not (f.gt (f.abs (f.minus v figure.value)) (f.maximum f.tolerance figure.precision))

pub some_injective : {A : Type 0} {a b : A} → some a ≡ some b → a ≡ b
some_injective e = cc

is_empty-append :
    {A : Type 0} (l m : List A)
    → is_empty (l ++ m) ≡ true
    → (is_empty l ≡ true) × (is_empty m ≡ true)
is_empty-append [] m h = (refl, h)
is_empty-append (x ∷ l) m h = cc

pub blocking_passed :
    (c : QualityCheck) (checks : List QualityCheck)
    → c.blocking ≡ true
    → passed (c ∷ checks) ≡ true
    → (c.passed ≡ true) × (passed checks ≡ true)
unfolding passed
blocking_passed c checks b h = (ground (arith, b, h), ground (arith, h))

pub and_right : (a b : Bool) → (a && b) ≡ true → b ≡ true
and_right true b h = h
and_right false b h = cc

pub passed-append :
    (l m : List QualityCheck) → passed (l ++ m) ≡ true → (passed l ≡ true) × (passed m ≡ true)
unfolding passed
passed-append [] m h = (refl, h)
passed-append (c ∷ l) m h =
    let rest = passed-append l m (ground (arith, h)) in (ground (arith, h, rest.0), rest.1)

-- The rules
unbalanced_rows-none :
    (f : Floats) (rule : ReconciliationRule) (rows : List StatementRow)
    → is_empty (unbalanced_rows f rule rows) ≡ true
    → All (λ row. is_balanced f (residual f rule row) ≡ true) rows
unfolding unbalanced_rows
unbalanced_rows-none f rule [] h = tt
unbalanced_rows-none f rule (row ∷ rows) h =
    let (here, later) = is_empty-append _ (unbalanced_rows f rule rows) h in
    (one row (residual f rule row) here, unbalanced_rows-none f rule rows later)
  where
    one :
        (row : StatementRow) (o : Option Float)
        → is_empty (unbalanced_by f row o) ≡ true
        → is_balanced f o ≡ true
    one row none h = refl
    one row (some r) h = ground (arith, h)

-- Every row balances by the rule, in the statement of the rule.
abbrev pub Balanced : Floats → Tables → ReconciliationRule → Type 0
Balanced f tables rule =
    All (λ row. is_balanced f (residual f rule row) ≡ true) (rows_of rule.source_table tables)

pub rule_checks-passed :
    (f : Floats) (tables : Tables) (rules : List ReconciliationRule)
    → passed (rule_checks f tables rules) ≡ true
    → All (Balanced f tables) rules
unfolding rule_checks rule_check passed
rule_checks-passed f tables [] h = tt
rule_checks-passed f tables (rule ∷ rules) h = (
  unbalanced_rows-none f rule (rows_of rule.source_table tables) (ground (arith, h)),
  rule_checks-passed f tables rules (ground (arith, h)),
)

-- No two rows are of one date.
abbrev pub DistinctDates : List StatementRow → Type 0
DistinctDates [] = Unit
DistinctDates (x ∷ rows) =
    All (λ row. text_eq x.report_date row.report_date ≡ false) rows × DistinctDates rows

-- An annual row of the window has its required fields.
abbrev pub has_required : Text → List ℕ → StatementRow → Bool
has_required statement window row = is_empty (absent_in statement window row)

Unseen : List Text → List StatementRow → Type 0
Unseen seen rows = All (λ row. contains seen row.report_date ≡ false) rows

Unseen-cons :
    (d : Text) (seen : List Text) (rows : List StatementRow)
    → Unseen (d ∷ seen) rows
    → All (λ row. text_eq d row.report_date ≡ false) rows × Unseen seen rows
unfolding Unseen contains
Unseen-cons d seen [] h = (tt, tt)
Unseen-cons d seen (row ∷ rows) h =
    let (first, rest) = Unseen-cons d seen rows h.1 in
    ((ground (arith, h.0), first), (ground (arith, h.0), rest))

structure_rows-none :
    (statement : Text) (window : List ℕ) (seen : List Text) (rows : List StatementRow)
    → is_empty (structure_rows statement window seen rows) ≡ true
    → Unseen seen rows
      × DistinctDates rows
      × All (λ row. has_required statement window row ≡ true) rows
unfolding structure_rows Unseen
structure_rows-none statement window seen [] h = (tt, tt, tt)
structure_rows-none statement window seen (row ∷ rows) h =
    let (both, later) =
      is_empty-append (repeated statement seen row ++ absent_in statement window row)
        (structure_rows statement window (row.report_date ∷ seen) rows) h in
    let (fresh, full) =
      is_empty-append (repeated statement seen row) (absent_in statement window row) both in
    let (unseen, distinct, complete) =
      structure_rows-none statement window (row.report_date ∷ seen) rows later in
    let (apart, before) = Unseen-cons row.report_date seen rows unseen in
    ((ground (arith, fresh), before), (apart, distinct), (full, complete))

-- A statement has rows, no two of one date, and the annual rows of the window have their fields.
unfoldable pub IsStructured : Tables → List ℕ → Text → Type 0
IsStructured tables window statement =
    (is_empty (rows_of statement tables) ≡ false)
    × DistinctDates (rows_of statement tables)
    × All (λ row. has_required statement window row ≡ true) (rows_of statement tables)

structure_of-none :
    (statement : Text) (window : List ℕ) (rows : List StatementRow)
    → is_empty (structure_of statement window rows) ≡ true
    → (is_empty rows ≡ false)
      × DistinctDates rows
      × All (λ row. has_required statement window row ≡ true) rows
structure_of-none statement window [] h = cc
structure_of-none statement window (row ∷ rows) h =
    let (_, distinct, complete) = structure_rows-none statement window [] (row ∷ rows) h in
    (refl, distinct, complete)

pub structure_violations-none :
    (tables : Tables) (window : List ℕ) (l : List Text)
    → is_empty (structure_violations tables window l) ≡ true
    → All (IsStructured tables window) l
unfolding structure_violations IsStructured
structure_violations-none tables window [] h = tt
structure_violations-none tables window (statement ∷ l) h =
    let (here, later) =
      is_empty-append (structure_of statement window (rows_of statement tables)) _ h in
    (
      structure_of-none statement window (rows_of statement tables) here,
      structure_violations-none tables window l later,
    )

-- The rows of the years that have a report
abbrev pub is_settled : List ℕ → StatementRow → Bool
is_settled window row = not (is_covered window row && is_basis row.basis unverified)

unverified_rows-none :
    (statement : Text) (window : List ℕ) (rows : List StatementRow)
    → is_empty (unverified_rows statement window rows) ≡ true
    → All (λ row. is_settled window row ≡ true) rows
unfolding unverified_rows
unverified_rows-none statement window [] h = tt
unverified_rows-none statement window (row ∷ rows) h =
    elim (Bool-cases (is_covered window row && is_basis row.basis unverified)) [
      | inl bad ↦ let clash : false ≡ true = rw bad at h in cc
      | inr fine ↦ (rw fine refl, unverified_rows-none statement window rows (rw fine at h))
    ]

pub unverified_of-none :
    (window : List ℕ) (tables : Tables)
    → is_empty (unverified_of window tables) ≡ true
    → All (λ entry. All (λ row. is_settled window row ≡ true) entry.1) tables
unfolding unverified_of
unverified_of-none window [] h = tt
unverified_of-none window ((statement, rows) ∷ tables) h =
    let (here, later) = is_empty-append (unverified_rows statement window rows) _ h in
    (unverified_rows-none statement window rows here, unverified_of-none window tables later)

abbrev pub value_or_none : Option (Option Float) → Option Float
value_or_none none = none
value_or_none (some v) = v

-- A figure that is no comparison agrees with the row that rests on its report, if there is a value.
abbrev pub is_confirmed : Floats → Tables → OfficialFigure → Bool
is_confirmed f tables figure =
    is_basis figure.basis comparative
    || is_agreed f figure (value_or_none (value_for tables figure (item_of figure.item)))

difference-none :
    (f : Floats) (figure : OfficialFigure) (o : Option Float)
    → is_empty (difference f figure o) ≡ true
    → is_agreed f figure o ≡ true
difference-none f figure none h = refl
difference-none f figure (some v) h = ground (arith, h)

with_value_of-none :
    (f : Floats) (figure : OfficialFigure) (v : Option (Option Float))
    (rest : Option (List Violation × ℕ)) (violations : List Violation) (n : ℕ)
    → with_value_of f figure v rest ≡ some (violations, n)
    → is_empty violations ≡ true
    → (is_agreed f figure (value_or_none v) ≡ true)
      × ((r : List Violation × ℕ) × (rest ≡ some r) × (is_empty r.0 ≡ true))
with_value_of-none f figure none rest violations n e h = cc
with_value_of-none f figure (some v) none violations n e h = cc
with_value_of-none f figure (some v) (some (l, m)) violations n e h =
    let same : difference f figure v ++ l ≡ violations = ap (λ p. p.0) (some_injective e) in
    let (here, later) = is_empty-append (difference f figure v) l (rw same h) in
    (difference-none f figure v here, ((l, m), refl, later))

pub official_differences-none :
    (f : Floats) (tables : Tables) (figures : List OfficialFigure) (violations : List Violation)
    (n : ℕ)
    → official_differences f tables figures ≡ some (violations, n)
    → is_empty violations ≡ true
    → All (λ figure. is_confirmed f tables figure ≡ true) figures
unfolding official_differences
official_differences-none f tables [] violations n e h = tt
official_differences-none f tables (figure ∷ figures) violations n e h =
    elim (Bool-cases (is_basis figure.basis comparative)) [
      | inl other ↦
          (rw other refl, official_differences-none f tables figures violations n (rw other at e) h)
      | inr own ↦
          let (agreed, ((l, m), q, later)) =
            with_value_of-none f figure (value_for tables figure (item_of figure.item))
              (official_differences f tables figures) violations n (rw own at e) h in
          (rw own agreed, official_differences-none f tables figures l m q later)
    ]
