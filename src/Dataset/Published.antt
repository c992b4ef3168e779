-- ===== src/Dataset/Published.antt =====
-- What a data set that passes its checks is: app/app/application/securities/dataset/quality.py.
use info_backend.Prelude.{
  ℕ, ◌≡◌, refl, sym, true, Option, none, some, List, [], ◌∷◌, ◌++◌, arith, All,
}
use info_backend.Dataset.Domain.{
  Floats, Tables, OfficialFigure, DisclosureEntry, reconciliation_rules, statements,
}
use info_backend.Dataset.Reconciliation.{QualityCheck, Violation, is_empty, reconciliation}
use info_backend.Dataset.Screening.{Screening}
use info_backend.Dataset.Continuous.{IsContinuous, breaks_of-none}
use info_backend.Dataset.Structure.{structure}
use info_backend.Dataset.Continuity.{annual_cash, continuity}
use info_backend.Dataset.Official.{official, official_differences, official_check, basis_coverage}
use info_backend.Dataset.Quality.{
  Age, with_official, disclosure, freshness, screened, window_of, run_checks, passed, first_year,
}
use info_backend.Dataset.Clean.{
  some_injective, blocking_passed, and_right, passed-append, Balanced, rule_checks-passed,
  IsStructured, structure_violations-none, is_settled, unverified_of-none, is_confirmed,
  official_differences-none,
}

-- What passing means
unfoldable pub IsPublishable : Floats → Tables → List OfficialFigure → Option Screening → Type 0
IsPublishable f tables figures s =
    All (IsStructured tables (window_of figures)) statements
    × All (Balanced f tables) reconciliation_rules
    × IsContinuous f (first_year s) (annual_cash tables)
    × All (λ figure. is_confirmed f tables figure ≡ true) figures
    × All (λ entry. All (λ row. is_settled (window_of figures) row ≡ true) entry.1) tables

official_check-confirmed :
    (f : Floats) (tables : Tables) (figures : List OfficialFigure) (o : Option (List Violation × ℕ))
    {c : QualityCheck}
    → official_differences f tables figures ≡ o
    → official_check o ≡ some c
    → passed (c ∷ []) ≡ true
    → All (λ figure. is_confirmed f tables figure ≡ true) figures
unfolding passed
official_check-confirmed f tables figures none q e h = cc
official_check-confirmed f tables figures (some (violations, n)) {c} q e h =
    let same = some_injective e in
    let clean : is_empty violations ≡ true = ground (arith, rw (sym same) at h) in
    official_differences-none f tables figures violations n q clean

with_official-passed :
    (f : Floats) (tables : Tables) (figures : List OfficialFigure) (calendar : List DisclosureEntry)
    (age : Age) (s : Option Screening) (o : Option QualityCheck) {checks : List QualityCheck}
    → official f tables figures ≡ o
    → with_official f tables figures calendar age s o ≡ some checks
    → passed checks ≡ true
    → IsPublishable f tables figures s
unfolding IsPublishable structure reconciliation basis_coverage official passed continuity
with_official-passed f tables figures calendar age s none q e h = cc
with_official-passed f tables figures calendar age s (some c) {checks} q e h =
    let window = window_of figures in
    let cash = continuity f tables (first_year s) in
    let last = disclosure calendar window ∷ freshness age tables ∷ [] in
    let rest_of = basis_coverage tables window ∷ last in
    let more = c ∷ rest_of in
    let others = cash ∷ more in
    let all = rw (sym (some_injective e)) at h in
    let (most, _) =
      passed-append ((structure tables window ∷ []) ++ reconciliation f tables ++ others)
        (screened s cash) all in
    let (first, second) =
      passed-append ((structure tables window ∷ []) ++ reconciliation f tables) others most in
    let (carried, rest) = blocking_passed cash more refl second in
    let (own, rest) = passed-append (c ∷ []) rest_of rest in
    let (coverage, _) = blocking_passed (basis_coverage tables window) last refl rest in
    let (shape, rules) =
      passed-append (structure tables window ∷ []) (reconciliation f tables) first in
    (
      structure_violations-none tables window statements
          (blocking_passed (structure tables window) [] refl shape).0,
      rule_checks-passed f tables reconciliation_rules rules,
      breaks_of-none f (first_year s) (annual_cash tables) carried,
      official_check-confirmed f tables figures (official_differences f tables figures) refl q own,
      unverified_of-none window tables (and_right _ _ coverage),
    )

-- A data set that passes its checks has rows in all three statements, no two of a statement of one date,
-- and the required fields in the annual rows of the window; every row balances by every rule whose
-- fields it has; the cash at the beginning of a year is that at the end of the year before where both are
-- there, or a restatement explains it or the year is before the hard window; every figure that is not
-- given for comparison agrees with the last annual row of its year, if that row is of the figure's basis,
-- was verified against the figure's own report and has the value, and other figures are not looked at;
-- and the annual rows of the years that have a report are verified.
pub run_checks-IsPublishable :
    (f : Floats) (tables : Tables) (figures : List OfficialFigure) (calendar : List DisclosureEntry)
    (age : Age) (s : Option Screening) {checks : List QualityCheck}
    → run_checks f tables figures calendar age s ≡ some checks
    → passed checks ≡ true
    → IsPublishable f tables figures s
unfolding run_checks
run_checks-IsPublishable f tables figures calendar age s e h =
    with_official-passed f tables figures calendar age s (official f tables figures) refl e h
