-- ===== src/Ingestion/Reports.antt =====
-- The annual reports of a list of announcements: `_report` and `_without_relisted` of
-- app/app/application/securities/collectors/cninfo.py.
use info_backend.Prelude.{
  ℕ, Bool, true, false, not, ◌&&◌, ◌||◌, Option, none, some, List, [], ◌∷◌, ◌++◌, any, sort_by,
  Text, text_eq, codes, ◌==◌, if◌then◌else◌,
}
use info_backend.Ingestion.Json.{Object, get, as_int, Reader, text_or_empty}

-- What `_report` answers. The number of the announcement is kept beside its text; the size stays in the
-- record, where the source takes it out.
pub record Report : Type 0 where
  pub fiscal_year : ℕ
  pub title : Text
  pub announcement_id : Text
  pub number : ℕ
  pub announcement_time_ms : ℕ
  pub official_disclosed_date : Text
  pub revised : Bool
  pub adjunct_url : Text
  pub listed_size_kb : Option ℕ
  pub relisted_as : List Text

-- `_NOT_FULL_REPORT`
abbrev not_full_report : List Text
not_full_report = codes "摘要" ∷ codes "英文" ∷ codes "取消" ∷ codes "已取消" ∷ codes "H股" ∷ codes "H 股" ∷ []

-- `_REVISED`
abbrev revised_words : List Text
revised_words = codes "修订" ∷ codes "更正" ∷ codes "更新" ∷ []

abbrev is_blank : Text → Bool
is_blank [] = true
is_blank (c ∷ t) = false

-- The guards of `_report`: without a year, a number or a time there is no report.
abbrev report_from :
    Reader → Text → Text → Text → Option ℕ → Option ℕ → Option ℕ → Option ℕ → Option Report
report_from r title adjunct id (some year) (some n) (some time) size = some (record {
  fiscal_year = year;
  title = title;
  announcement_id = id;
  number = n;
  announcement_time_ms = time;
  official_disclosed_date = r.shanghai_date time;
  revised = any (r.has_word title) revised_words;
  adjunct_url = adjunct;
  listed_size_kb = size;
  relisted_as = [];
})
report_from r title adjunct id _ _ _ size = none

-- `_report`
unfoldable pub report : Reader → Object → Option Report
unfolding get
report r row =
    let title = r.without_em (text_or_empty r (get (codes "announcementTitle") row)) in
    let adjunct = text_or_empty r (get (codes "adjunctUrl") row) in
    let id = text_or_empty r (get (codes "announcementId") row) in
    if any (r.has_word title) not_full_report
      || not (r.is_adjunct adjunct)
      || is_blank (text_or_empty r (get (codes "secCode") row))
    then none
    else report_from r title adjunct id (r.title_year title) (r.int_of id)
        (as_int (get (codes "announcementTime") row)) (as_int (get (codes "adjunctSize") row))

abbrev with_report : Option Report → List Report → List Report
with_report none l = l
with_report (some x) l = x ∷ l

unfoldable pub reports_in : Reader → List Object → List Report
unfolding report
reports_in r [] = []
reports_in r (row ∷ rows) = with_report (report r row) (reports_in r rows)

abbrev pub is_size : Option ℕ → Option ℕ → Bool
is_size (some a) (some b) = a == b
is_size _ _ = false

-- The keys are the same, and the size is known.
abbrev pub is_relisted : Report → Report → Bool
is_relisted x first =
    text_eq first.title x.title
    && first.announcement_time_ms == x.announcement_time_ms
    && is_size first.listed_size_kb x.listed_size_kb

abbrev pub noted : Report → Report → Report
noted x first = record first { relisted_as = first.relisted_as ++ x.announcement_id ∷ [] }

-- The body of the loop: the report is noted at the first of its key, or it is kept.
unfoldable pub add_report : Report → List Report → List Report
unfolding text_eq
add_report x [] = x ∷ []
add_report x (first ∷ found) =
    let later = first ∷ add_report x found in
    if is_relisted x first then noted x first ∷ found else later

unfoldable pub add_reports : List Report → List Report → List Report
unfolding add_report
add_reports [] found = found
add_reports (x ∷ l) found = add_reports l (add_report x found)

-- `_without_relisted`
unfoldable pub without_relisted : List Report → List Report
unfolding add_reports
without_relisted reports = add_reports (sort_by (λ x. x.number) reports) []
