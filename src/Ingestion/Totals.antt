-- ===== src/Ingestion/Totals.antt =====
-- What the summary of a batch counts: `_summarize` of app/app/application/securities/ingestion_service.py.
use info_backend.Prelude.{
  ℕ, suc, ◌+◌, ◌<◌, ◌≡◌, refl, subst, ◌∙◌, Bool, true, false, not, ◌&&◌, ◌||◌, Option, none, some,
  List, [], ◌∷◌, length, count, any, All, arith, Text, text_eq, text_eq_iff, codes, Bool-cases, inl,
  inr, ◌==◌, ltb, if◌then◌else◌,
}
use info_backend.Intake.Domain.{IngestionStatus}
use info_backend.Ingestion.Domain.{
  ArchivedItem, CollectError, SkippedItem, IngestionSummary, source_text, lookup, is_report_file,
}
use info_backend.Ingestion.Summary.{
  Conversions, was_fetched, collect_periods, insert_year, with_year, year_of, report_years, tally,
  count_sources, summary_of, summarize,
}

-- What a counter has for a key
abbrev pub counted : Text → List (Text × ℕ) → ℕ
counted key [] = 0
counted key ((k, n) ∷ rest) = let later = counted key rest in if text_eq k key then n else later

abbrev pub is_from : Text → ArchivedItem → Bool
is_from key item = text_eq (source_text item.source) key

abbrev pub IsIncreasing : List ℕ → Type 0
IsIncreasing [] = Unit
IsIncreasing (x ∷ l) = All (λ y. x < y) l × IsIncreasing l

abbrev pub is_year : Conversions → ℕ → Option ℕ → Bool
is_year c y none = false
is_year c y (some z) = y == z

-- a report of the year, that was fetched
abbrev pub is_report_of : Conversions → ℕ → ArchivedItem → Bool
is_report_of c y item =
    is_report_file item.kind
    && was_fetched item
    && is_year c y (year_of c (lookup (codes "fiscal_year") item.meta))

pub some_injective : {A : Type 0} {a b : A} → some a ≡ some b → a ≡ b
some_injective e = cc

counted-tally :
    (key source : Text) (counts : List (Text × ℕ))
    → counted key (tally source counts)
      ≡ (if text_eq source key then suc (counted key counts) else counted key counts)
unfolding tally
counted-tally key source [] = ground arith
counted-tally key source ((k, n) ∷ rest) = ground (
  arith,
  counted-tally key source rest,
  text_eq_iff k source,
  text_eq_iff k key,
  text_eq_iff source key,
)

count_sources-counted :
    (key : Text) (items : List ArchivedItem) (counts : List (Text × ℕ))
    → counted key (count_sources items counts) ≡ counted key counts + count (is_from key) items
unfolding count_sources
count_sources-counted key [] counts = omega arith
count_sources-counted key (item ∷ items) counts =
    let first = counted-tally key (source_text item.source) counts in
    let rest = count_sources-counted key items (tally (source_text item.source) counts) in
    rest ∙ ground (arith, first)

new_and_reused :
    (items : List ArchivedItem)
    → count (λ i. not i.reused) items + count (λ i. i.reused) items ≡ length items
new_and_reused [] = refl
new_and_reused (item ∷ items) = ground (arith, new_and_reused items)

insert_year-above :
    (x y : ℕ) (l : List ℕ) → x < y → All (λ z. x < z) l → All (λ z. x < z) (insert_year y l)
unfolding insert_year
insert_year-above x y [] below h = (below, tt)
insert_year-above x y (z ∷ l) below h = elim (Bool-cases (y == z)) [
  | inl same ↦ rw same h
  | inr other ↦ elim (Bool-cases (ltb y z)) [
    | inl less ↦ rw other (rw less (below, h))
    | inr more ↦ rw other (rw more (h.0, insert_year-above x y l below h.1))
  ]
]

All-above : (y x : ℕ) (l : List ℕ) → y < x → All (λ z. x < z) l → All (λ z. y < z) l
All-above y x [] less h = tt
All-above y x (z ∷ l) less h = (omega (arith, less, h.0), All-above y x l less h.1)

insert_year-IsIncreasing : (y : ℕ) (l : List ℕ) → IsIncreasing l → IsIncreasing (insert_year y l)
unfolding insert_year
insert_year-IsIncreasing y [] h = (tt, tt)
insert_year-IsIncreasing y (x ∷ l) h = elim (Bool-cases (y == x)) [
  | inl same ↦ rw same h
  | inr other ↦ elim (Bool-cases (ltb y x)) [
    | inl less ↦
        let y<x : y < x = ground (arith, less) in
        rw other (rw less ((y<x, All-above y x l y<x h.0), h))
    | inr more ↦ rw other (
        rw more (
          insert_year-above x y l (ground (arith, other, more)) h.0,
          insert_year-IsIncreasing y l h.1,
        ))
  ]
]

insert_year-any :
    (z y : ℕ) (l : List ℕ) → any (λ w. z == w) (insert_year y l) ≡ (z == y || any (λ w. z == w) l)
unfolding insert_year
insert_year-any z y [] = refl
insert_year-any z y (x ∷ l) = ground (arith, insert_year-any z y l)

-- The years are in order, and they are those of the reports.
abbrev pub AreYears : Conversions → List ArchivedItem → List ℕ → Type 0
AreYears c items years =
    IsIncreasing years × ((y : ℕ) → any (λ w. y == w) years ≡ any (is_report_of c y) items)

with_year-AreYears :
    (c : Conversions) (item : ArchivedItem) (items : List ArchivedItem) (year : Option ℕ)
    (rest : Option (List ℕ)) {years : List ℕ}
    → year_of c (lookup (codes "fiscal_year") item.meta) ≡ year
    → (is_report_file item.kind && was_fetched item) ≡ true
    → ((l : List ℕ) → rest ≡ some l → AreYears c items l)
    → with_year year rest ≡ some years
    → AreYears c (item ∷ items) years
unfolding with_year
with_year-AreYears c item items none none x fetched h e = cc
with_year-AreYears c item items none (some l) x fetched h e = cc
with_year-AreYears c item items (some y) none x fetched h e = cc
with_year-AreYears c item items (some y) (some l) {years} x fetched h e =
    let (increasing, same) = h l refl in
    let made : insert_year y l ≡ years = ground (arith, e) in
    subst (AreYears c (item ∷ items)) made (
      insert_year-IsIncreasing y l increasing,
      λ z. insert_year-any z y l ∙ rw x (ground (arith, same z, fetched)),
    )

report_years-AreYears :
    (c : Conversions) (items : List ArchivedItem) {years : List ℕ}
    → report_years c items ≡ some years
    → AreYears c items years
unfolding report_years
report_years-AreYears c [] {years} e =
    let made : [] ≡ years = ground (arith, e) in subst (AreYears c []) made (tt, λ y. refl)
report_years-AreYears c (item ∷ items) {years} e =
    elim (Bool-cases (is_report_file item.kind && was_fetched item)) [
      | inl fetched ↦
          with_year-AreYears c item items _ (report_years c items) refl fetched
            (λ l q. report_years-AreYears c items q) (rw fetched at e)
      | inr other ↦
          let (increasing, same) = report_years-AreYears c items (rw other at e) in
          (increasing, λ y. same y ∙ ground (arith, other))
    ]

-- The numbers of a summary fit the items
unfoldable pub IsTotal : Conversions → List ArchivedItem → IngestionSummary → Type 0
IsTotal c items s =
    (s.items ≡ length items)
    × (s.new_artifacts ≡ count (λ i. not i.reused) items)
    × (s.reused_artifacts ≡ count (λ i. i.reused) items)
    × (s.new_artifacts + s.reused_artifacts ≡ s.items)
    × ((key : Text) → counted key s.by_source ≡ count (is_from key) items)
    × AreYears c items s.report_years

summary_of-IsTotal :
    (c : Conversions) (id : ℕ) (code : Text) (status : IngestionStatus) (started ended : ℕ)
    (items : List ArchivedItem) (error : Option CollectError) (skipped : List SkippedItem)
    (periods : Option (List (Text × List Text))) (years : Option (List ℕ)) {s : IngestionSummary}
    → ((l : List ℕ) → years ≡ some l → AreYears c items l)
    → summary_of id code status started ended items error skipped periods years ≡ some s
    → IsTotal c items s
unfolding summary_of IsTotal
summary_of-IsTotal c id code status started ended items error skipped none years h e = cc
summary_of-IsTotal c id code status started ended items error skipped (some periods) none h e = cc
summary_of-IsTotal c id code status started ended items error skipped (some periods) (some years) h
      e =
    subst (IsTotal c items) (some_injective e) (
      refl,
      refl,
      refl,
      new_and_reused items,
      λ key. count_sources-counted key items [] ∙ omega arith,
      h years refl,
    )

-- The summary counts each item once as new or as reused, and once under its source; its years are in
-- order, without repetition, and are those of the annual reports that were fetched with a status
-- below 400.
pub summarize-IsTotal :
    (c : Conversions) (id : ℕ) (code : Text) (status : IngestionStatus) (started ended : ℕ)
    (items : List ArchivedItem) (error : Option CollectError) (skipped : List SkippedItem)
    {s : IngestionSummary}
    → summarize c id code status started ended items error skipped ≡ some s
    → IsTotal c items s
unfolding summarize
summarize-IsTotal c id code status started ended items error skipped e =
    summary_of-IsTotal c id code status started ended items error skipped
      (collect_periods c items []) (report_years c items) (λ l q. report_years-AreYears c items q) e
