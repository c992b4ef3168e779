-- ===== src/Ingestion/Relisted.antt =====
-- Nothing is lost when reports that were listed again are put together: `_without_relisted` of
-- app/app/application/securities/collectors/cninfo.py.
use info_backend.Prelude.{
  ℕ, ◌+◌, ◌≡◌, refl, ◌∙◌, Bool, false, List, [], ◌∷◌, ◌++◌, arith, All, count, sort_by, insert_by,
  leb, Text, text_eq, text_eq_iff, Bool-cases, inl, inr, if◌then◌else◌,
}
use info_backend.Rows.{All-sort_by}
use info_backend.Ingestion.Reports.{Report, is_relisted, add_report, add_reports, without_relisted}

-- How often a report names an announcement
abbrev pub names_of : Text → Report → ℕ
names_of id x = (if text_eq x.announcement_id id then 1 else 0) + count (text_eq id) x.relisted_as

abbrev pub named : Text → List Report → ℕ
named id [] = 0
named id (x ∷ l) = names_of id x + named id l

-- No report of the list notes another.
abbrev pub AreNew : List Report → Type 0
AreNew l = All (λ x. x.relisted_as ≡ []) l

-- No two reports of a known size have the same title, time and size.
abbrev pub DistinctReports : List Report → Type 0
DistinctReports [] = Unit
DistinctReports (x ∷ l) = All (λ y. is_relisted y x ≡ false) l × DistinctReports l

count-snoc :
    (p : Text → Bool) (l : List Text) (t : Text)
    → count p (l ++ t ∷ []) ≡ count p l + (if p t then 1 else 0)
count-snoc p [] t = ground arith
count-snoc p (x ∷ l) t = let rest = count-snoc p l t in ground (arith, rest)

text_eq_comm : (s t : Text) → text_eq s t ≡ text_eq t s
text_eq_comm s t = ground (arith, text_eq_iff s t, text_eq_iff t s)

named-add_report :
    (id : Text) (x : Report) (found : List Report)
    → x.relisted_as ≡ []
    → named id (add_report x found) ≡ names_of id x + named id found
unfolding add_report
named-add_report id x [] new = refl
named-add_report id x (first ∷ found) new = elim (Bool-cases (is_relisted x first)) [
  | inl e ↦
      let noted_once = count-snoc (text_eq id) first.relisted_as x.announcement_id in
      let comm = text_eq_comm id x.announcement_id in
      rw e (rw new (ground (arith, noted_once, comm)))
  | inr e ↦ rw e (let rest = named-add_report id x found new in omega (arith, rest))
]

named-add_reports :
    (id : Text) (l found : List Report)
    → AreNew l
    → named id (add_reports l found) ≡ named id l + named id found
unfolding add_reports
named-add_reports id [] found new = omega arith
named-add_reports id (x ∷ l) found new =
    let first = named-add_report id x found new.0 in
    let rest = named-add_reports id l (add_report x found) new.1 in omega (arith, first, rest)

named-insert_by :
    (id : Text) (x : Report) (l : List Report)
    → named id (insert_by (λ y. y.number) x l) ≡ names_of id x + named id l
named-insert_by id x [] = refl
named-insert_by id x (y ∷ l) = elim (Bool-cases (leb x.number y.number)) [
  | inl e ↦ rw e refl
  | inr e ↦ rw e (let rest = named-insert_by id x l in omega (arith, rest))
]

named-sort_by : (id : Text) (l : List Report) → named id (sort_by (λ y. y.number) l) ≡ named id l
named-sort_by id [] = refl
named-sort_by id (x ∷ l) =
    let first = named-insert_by id x (sort_by (λ y. y.number) l) in
    let rest = named-sort_by id l in omega (arith, first, rest)

add_report-apart :
    (x y : Report) (found : List Report)
    → is_relisted x y ≡ false
    → All (λ z. is_relisted z y ≡ false) found
    → All (λ z. is_relisted z y ≡ false) (add_report x found)
unfolding add_report
add_report-apart x y [] apart h = (apart, tt)
add_report-apart x y (first ∷ found) apart h = elim (Bool-cases (is_relisted x first)) [
  | inl e ↦ rw e (h.0, h.1)
  | inr e ↦ rw e (h.0, add_report-apart x y found apart h.1)
]

add_report-DistinctReports :
    (x : Report) (found : List Report)
    → DistinctReports found
    → DistinctReports (add_report x found)
unfolding add_report
add_report-DistinctReports x [] h = (tt, tt)
add_report-DistinctReports x (first ∷ found) h = elim (Bool-cases (is_relisted x first)) [
  | inl e ↦ rw e (h.0, h.1)
  | inr e ↦ rw e (add_report-apart x first found e h.0, add_report-DistinctReports x found h.1)
]

add_reports-DistinctReports :
    (l found : List Report) → DistinctReports found → DistinctReports (add_reports l found)
unfolding add_reports
add_reports-DistinctReports [] found h = h
add_reports-DistinctReports (x ∷ l) found h =
    add_reports-DistinctReports l (add_report x found) (add_report-DistinctReports x found h)

-- Putting together the reports that were listed again loses and doubles nothing: every announcement is named
-- as often as before, by a report that is kept or among the numbers that it notes; and no two
-- reports that are kept have the same title, time and known size. The reports must come without notes,
-- as `_report` makes them.
pub without_relisted-keeps :
    (reports : List Report)
    → AreNew reports
    → ((id : Text) → named id (without_relisted reports) ≡ named id reports)
      × DistinctReports (without_relisted reports)
unfolding without_relisted
without_relisted-keeps reports new = (
  λ id.
      named-add_reports id (sort_by (λ x. x.number) reports) []
        (All-sort_by _ (λ x. x.number) reports new)
      ∙ (let same = named-sort_by id reports in omega (arith, same)),
  add_reports-DistinctReports (sort_by (λ x. x.number) reports) [] tt,
)
