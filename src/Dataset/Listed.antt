-- ===== src/Dataset/Listed.antt =====
-- The list of the periods that `screen` of app/app/application/securities/dataset/quality.py left out.
use info_backend.Prelude.{
  false, Option, ℕ, ◌+◌, ◌-◌, ◌≡◌, refl, sym, subst, ap, ◌∙◌, Bool, true, not, ◌||◌, none, some,
  List, [], ◌∷◌, arith, All, any, filter_by, map, Text, text_eq, text_eq_iff, Bool-cases, inl, inr,
  ltb,
}
use info_backend.Dataset.Domain.{Floats, StatementRow, Tables, all_rows, reconciliation_rules}
use info_backend.Dataset.Reconciliation.{Excluded}
use info_backend.Rows.{All-Among}
use info_backend.Dataset.Screening.{
  Screening, Break, is_dropped, is_kept, kept, text_ltb, insert_date, dates, excluded_by,
  latest_year, breaks, screen_rows, screen,
}
use info_backend.Dataset.Breach.{IsBreach, breaks-IsFound, excluded-IsBreach}
use info_backend.Dataset.Clean.{some_injective}

-- The row's period is on the list.
abbrev is_listed : List Excluded → StatementRow → Bool
is_listed excluded row = any (λ e. text_eq e.report_date row.report_date) excluded

-- The tables without the periods on the list
unfoldable pub unlisted : List Excluded → Tables → Tables
unlisted excluded [] = []
unlisted excluded ((k, rows) ∷ rest) =
    (k, filter_by (λ row. not (is_listed excluded row)) rows) ∷ unlisted excluded rest

abbrev is_date : Text → Text → Bool
is_date d x = text_eq x d

insert_date-any :
    (d b : Text) (l : List Text)
    → any (is_date d) (insert_date b l) ≡ (text_eq b d || any (is_date d) l)
unfolding insert_date
insert_date-any d b [] = refl
insert_date-any d b (x ∷ l) = elim (Bool-cases (text_eq b x)) [
  | inl same ↦
      let e : b ≡ x = (text_eq_iff b x).0 same in
      rw same (
        subst (λ z. any (is_date d) (x ∷ l) ≡ (text_eq z d || any (is_date d) (x ∷ l))) (sym e)
          (ground arith))
  | inr other ↦ elim (Bool-cases (text_ltb b x)) [
    | inl before ↦ rw other (rw before refl)
    | inr after ↦ rw other (rw after (ground (arith, insert_date-any d b l)))
  ]
]

dates-is_dropped :
    (d : Text) (found : List Break) → any (is_date d) (dates found) ≡ is_dropped found d
unfolding dates
dates-is_dropped d [] = refl
dates-is_dropped d (b ∷ found) =
    insert_date-any d b.report_date (dates found)
    ∙ ap (λ z. text_eq b.report_date d || z) (dates-is_dropped d found)

listed_map :
    (row : StatementRow) (found : List Break) (l : List Text)
    → is_listed (map (excluded_by found) l) row ≡ any (is_date row.report_date) l
unfolding excluded_by
listed_map row found [] = refl
listed_map row found (d ∷ l) = ap (λ z. text_eq d row.report_date || z) (listed_map row found l)

module _ (found : List Break) where
  abbrev listed : List Excluded
  listed = map (excluded_by found) (dates found)

  kept_rows :
      (rows : List StatementRow)
      → filter_by (is_kept found) rows ≡ filter_by (λ row. not (is_listed listed row)) rows
  kept_rows [] = refl
  kept_rows (row ∷ rows) =
      rw (listed_map row found (dates found) ∙ dates-is_dropped row.report_date found)
        (rw (kept_rows rows) refl)

  kept-unlisted : (tables : Tables) → kept found tables ≡ unlisted listed tables
  unfolding unlisted
  kept-unlisted [] = refl
  kept-unlisted ((k, rows) ∷ tables) = rw (kept_rows rows) (rw (kept-unlisted tables) refl)

filter_none : (rows : List StatementRow) → rows ≡ filter_by (λ row. not (is_listed [] row)) rows
filter_none [] = refl
filter_none (row ∷ rows) = ap (λ l. row ∷ l) (filter_none rows)

unlisted_none : (tables : Tables) → tables ≡ unlisted [] tables
unfolding unlisted
unlisted_none [] = refl
unlisted_none ((k, rows) ∷ tables) =
    ap (λ l. (k, rows) ∷ l) (unlisted_none tables)
    ∙ ap (λ l. (k, l) ∷ unlisted [] tables) (filter_none rows)

-- The entry names a rule.
abbrev is_reasoned : Excluded → Bool
is_reasoned e = any (λ r. true) e.rules

any-map_filter :
    {A B : Type 0} (p : A → Bool) (g : A → B) (l : List A)
    → any (λ r. true) (map g (filter_by p l)) ≡ any p l
any-map_filter p g [] = refl
any-map_filter p g (x ∷ l) = elim (Bool-cases (p x)) [
  | inl here ↦ rw here refl
  | inr away ↦ rw away (any-map_filter p g l)
]

excluded_by-is_reasoned :
    (found : List Break) (d : Text) → is_reasoned (excluded_by found d) ≡ is_dropped found d
unfolding excluded_by
excluded_by-is_reasoned found d = any-map_filter _ _ found

insert_date-All :
    (P : Text → Type 0) (b : Text) (l : List Text) → P b → All P l → All P (insert_date b l)
unfolding insert_date
insert_date-All P b [] h k = (h, tt)
insert_date-All P b (x ∷ l) h k = elim (Bool-cases (text_eq b x)) [
  | inl same ↦ rw same k
  | inr other ↦ elim (Bool-cases (text_ltb b x)) [
    | inl before ↦ rw other (rw before (h, k))
    | inr after ↦ rw other (rw after (k.0, insert_date-All P b l h k.1))
  ]
]

-- Every date of the breaks found has a break.
dates-All :
    (P : Text → Type 0) (found : List Break)
    → All (λ b. P b.report_date) found
    → All P (dates found)
unfolding dates
dates-All P [] h = tt
dates-All P (b ∷ found) h =
    insert_date-All P b.report_date (dates found) h.0 (dates-All P found h.1)

All-weaken_later :
    (b : Break) (found rest : List Break)
    → All (λ c. is_dropped found c.report_date ≡ true) rest
    → All (λ c. is_dropped (b ∷ found) c.report_date ≡ true) rest
All-weaken_later b found [] h = tt
All-weaken_later b found (c ∷ rest) h = (ground (arith, h.0), All-weaken_later b found rest h.1)

dropped_self : (found : List Break) → All (λ b. is_dropped found b.report_date ≡ true) found
dropped_self [] = tt
dropped_self (b ∷ found) = (
  ground (arith, (text_eq_iff b.report_date b.report_date).1 refl),
  All-weaken_later b found found (dropped_self found),
)

All-reasoned :
    (found : List Break) (l : List Text)
    → All (λ d. is_dropped found d ≡ true) l
    → All (λ e. is_reasoned e ≡ true) (map (excluded_by found) l)
All-reasoned found [] h = tt
All-reasoned found (d ∷ l) h = (excluded_by-is_reasoned found d ∙ h.0, All-reasoned found l h.1)

-- The rules that an entry names
unfoldable pub Explains : Floats → Tables → Option ℕ → Excluded → Type 0
Explains f tables none e = false ≡ true
Explains f tables (some first) e =
    (is_reasoned e ≡ true) × All (IsBreach f first tables e.report_date) e.rules

-- What is left is what is not on the list, and each entry of the list names the rules broken.
unfoldable pub IsAccounted : Floats → Tables → Screening → Type 0
IsAccounted f tables s =
    (s.rows ≡ unlisted s.excluded tables) × All (Explains f tables s.first_hard_year) s.excluded

All-both : {A : Type 0} (P Q : A → Type 0) (l : List A) → All P l → All Q l → All (λ x. P x × Q x) l
All-both P Q [] h k = tt
All-both P Q (x ∷ l) h k = ((h.0, k.0), All-both P Q l h.1 k.1)

screen_rows-IsAccounted :
    (f : Floats) (tables : Tables) (hard_years : ℕ) (rows : List StatementRow)
    → IsAccounted f tables (screen_rows f tables hard_years rows)
unfolding screen_rows IsAccounted Explains
screen_rows-IsAccounted f tables hard_years [] = (unlisted_none tables, tt)
screen_rows-IsAccounted f tables hard_years (row ∷ rows) =
    let first = latest_year (row ∷ rows) + 1 - hard_years in
    let found = breaks f first tables reconciliation_rules in
    (
      kept-unlisted found tables,
      All-both _ _ (map (excluded_by found) (dates found))
          (All-reasoned found (dates found) (dates-All _ found (dropped_self found)))
          (excluded-IsBreach f first tables found (dates found)
            (breaks-IsFound f first tables reconciliation_rules (All-Among reconciliation_rules))),
    )

-- The screening accounts for what it takes away: the rows left are, table by table and in their order,
-- the rows whose period is not on the list of excluded periods. Each period on that list names at least
-- one rule, and for every rule that it names there is a row of the period, in the rule's statement and
-- before the hard window, that the rule's residual exceeds the tolerance for, and the entry shows that
-- residual, rounded.
pub screen-IsAccounted :
    (f : Floats) (tables : Tables) (hard_years : ℕ) {s : Screening}
    → screen f tables hard_years ≡ some s
    → IsAccounted f tables s
unfolding screen
screen-IsAccounted f tables hard_years {s} e = elim (Bool-cases (ltb hard_years 1)) [
  | inl bad ↦ let clash : none ≡ some s = rw bad at e in cc
  | inr fine ↦
      subst (IsAccounted f tables) (some_injective (rw fine at e))
        (screen_rows-IsAccounted f tables hard_years (all_rows tables))
]
