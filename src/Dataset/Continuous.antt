-- ===== src/Dataset/Continuous.antt =====
-- The cash of one year after another: `_continuity` of app/app/application/securities/dataset/quality.py.
use info_backend.Prelude.{
  ℕ, suc, ◌≡◌, refl, Bool, true, false, not, ◌||◌, Option, none, some, List, [], ◌∷◌, codes,
  Bool-cases, inl, inr, ◌==◌,
}
use info_backend.Dataset.Domain.{Floats, Float, restated, is_basis, StatementRow, value_in}
use info_backend.Dataset.Reconciliation.{is_empty}
use info_backend.Dataset.Continuity.{
  Breaks, is_before, sort_break, compare_cash, compare_years, breaks_of,
}

-- The opening cash is the closing cash of the year before, within the tolerance, as far as both are there.
abbrev pub is_carried : Floats → Option Float → Option Float → Bool
is_carried f (some begin) (some end) = f.le (f.abs (f.minus begin end)) f.tolerance
is_carried f _ _ = true

-- It is carried over, or a restatement explains it, or it is before the hard window.
abbrev pub is_continuous : Floats → Option ℕ → StatementRow → StatementRow → Bool
is_continuous f first previous current =
    not (current.fiscal_year == suc previous.fiscal_year)
    || is_carried f (value_in (codes "begin_cce") current.values)
        (value_in (codes "end_cce") previous.values)
    || is_basis previous.basis restated
    || is_basis current.basis restated
    || is_before first current.fiscal_year

abbrev pub Continues : Floats → Option ℕ → StatementRow → List StatementRow → Type 0
Continues f first previous [] = Unit
Continues f first previous (current ∷ rows) =
    (is_continuous f first previous current ≡ true) × Continues f first current rows

-- All pairs of neighbours
unfoldable pub IsContinuous : Floats → Option ℕ → List StatementRow → Type 0
IsContinuous f first [] = Unit
IsContinuous f first (row ∷ rows) = Continues f first row rows

sort_break-none :
    (f : Floats) (first : Option ℕ) (previous current : StatementRow) (diff : Float) (b : Breaks)
    → is_empty (sort_break f first previous current diff b).unexplained ≡ true
    → ((is_basis previous.basis restated
          || is_basis current.basis restated
          || is_before first current.fiscal_year)
        ≡ true)
      × (is_empty b.unexplained ≡ true)
unfolding sort_break
sort_break-none f first previous current diff b h =
    elim (Bool-cases (is_basis previous.basis restated || is_basis current.basis restated)) [
      | inl e ↦ (rw e refl, rw e at h)
      | inr e ↦ elim (Bool-cases (is_before first current.fiscal_year)) [
        | inl old ↦ (rw e (rw old refl), rw old at (rw e at h))
        | inr new ↦ let clash : false ≡ true = rw new at (rw e at h) in cc
      ]
    ]

compare_cash-none :
    (f : Floats) (first : Option ℕ) (previous current : StatementRow) (begin end : Option Float)
    (b : Breaks)
    → is_empty (compare_cash f first previous current begin end b).unexplained ≡ true
    → ((is_carried f begin end
          || is_basis previous.basis restated
          || is_basis current.basis restated
          || is_before first current.fiscal_year)
        ≡ true)
      × (is_empty b.unexplained ≡ true)
unfolding compare_cash
compare_cash-none f first previous current none end b h = (refl, h)
compare_cash-none f first previous current (some x) none b h = (refl, h)
compare_cash-none f first previous current (some x) (some y) b h =
    elim (Bool-cases (f.le (f.abs (f.minus x y)) f.tolerance)) [
      | inl e ↦ (rw e refl, rw e at h)
      | inr e ↦
          let (why, rest) =
            sort_break-none f first previous current (f.minus x y)
              (record b { checked = suc b.checked }) (rw e at h) in
          (rw e why, rest)
    ]

compare_years-none :
    (f : Floats) (first : Option ℕ) (previous : StatementRow) (rows : List StatementRow)
    → is_empty (compare_years f first previous rows).unexplained ≡ true
    → Continues f first previous rows
unfolding compare_years
compare_years-none f first previous [] h = tt
compare_years-none f first previous (current ∷ rows) h =
    elim (Bool-cases (current.fiscal_year == suc previous.fiscal_year)) [
      | inl next ↦
          let (why, rest) =
            compare_cash-none f first previous current (value_in (codes "begin_cce") current.values)
              (value_in (codes "end_cce") previous.values) (compare_years f first current rows)
              (rw next at h) in
          (rw next why, compare_years-none f first current rows rest)
      | inr apart ↦ (rw apart refl, compare_years-none f first current rows (rw apart at h))
    ]

pub breaks_of-none :
    (f : Floats) (first : Option ℕ) (rows : List StatementRow)
    → is_empty (breaks_of f first rows).unexplained ≡ true
    → IsContinuous f first rows
unfolding IsContinuous
breaks_of-none f first [] h = tt
breaks_of-none f first (row ∷ rows) h = compare_years-none f first row rows h
