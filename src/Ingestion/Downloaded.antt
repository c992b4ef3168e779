-- ===== src/Ingestion/Downloaded.antt =====
-- The collector of disclosures ends well only with a report: `collect` of
-- app/app/application/securities/collectors/cninfo.py in the context of
-- app/app/application/securities/ingestion_service.py.
use info_backend.Prelude.{
  ℕ, zero, suc, ◌≡◌, refl, sym, subst, ap, ◌∙◌, ◌⊎◌, inl, inr, Bool, true, false, ◌&&◌, ◌||◌, none,
  some, List, [], ◌∷◌, ◌++◌, length, any, arith, Text, contains, ltb, leb, Bool-cases, Option-cases,
}
use info_backend.SecurityCode.{SecurityCode}
use info_backend.Rows.{any-append}
use info_backend.Ingestion.Domain.{
  Bytes, FetchRequest, RawResponse, ArchivedItem, report_file, is_report_file, Outcome,
  Outcome-cases, done, stopped, crashed,
}
use info_backend.Ingestion.Store.{World}
use info_backend.Ingestion.Context.{
  Env, Run, Script, finished, fails, fetching, trying, with_attempts, max_requests, after_archive,
  after_retry, fetch, or_skipped, fetch_optional, item_level_errors, play,
}
use info_backend.Ingestion.Effects.{archive-Archival}
use info_backend.Ingestion.Keeps.{Property, IsKept, play-Holds}
use info_backend.Ingestion.Existing.{any-snoc}
use info_backend.Ingestion.Json.{Reader, Object, Read, Read-cases, got, unreadable}
use info_backend.Ingestion.Reports.{Report, without_relisted, reports_in}
use info_backend.Ingestion.Cninfo.{
  Settings, max_pages, report_request, ask_reports, ask_all, by_id, ask_pages, read_page, with_org,
  read_org, collect,
}

-- An annual report that came with a status below 400
abbrev pub is_report : ArchivedItem → Bool
is_report item = is_report_file item.kind && ltb item.http_status 400

-- However the requests are answered, the script ends well only after a report.
NeedsReport : Script → Type 0
NeedsReport finished = false ≡ true
NeedsReport (fails e) = Unit
NeedsReport (fetching request next) = (content : Bytes) → NeedsReport (next content)
NeedsReport (trying request next) =
    NeedsReport (next none)
    × ((content : Bytes) → (request.kind ≡ report_file) ⊎ NeedsReport (next (some content)))

HasReport : Property
HasReport w items = any is_report items ≡ true

HasReport-IsKept : (env : Env) (id : ℕ) (code : Text) → IsKept env id code HasReport
unfolding HasReport
HasReport-IsKept env id code = record {
  by_call = λ w items h. h;
  by_failure = λ request r w items h other. h;
  by_archive = λ request r w items item room h e. any-append is_report items (item ∷ []) h;
}

with_attempts-kind :
    (n : ℕ) (request : FetchRequest) → (with_attempts n request).kind ≡ request.kind
unfolding with_attempts
with_attempts-kind n request = elim (Bool-cases (ltb 1 n)) [ inl e ↦ rw e refl | inr e ↦ rw e refl ]

after_archive-HasReport :
    (r : RawResponse) (s : Run) (o : Outcome ArchivedItem) (w : World) {content : Bytes}
    → ((item : ArchivedItem)
        → o ≡ done item
        → (item.kind ≡ report_file) × (item.http_status ≡ r.status_code))
    → (after_archive r s (o, w)).0 ≡ done content
    → any is_report (after_archive r s (o, w)).1.items ≡ true
unfolding after_archive
after_archive-HasReport r s (stopped x) w known e = cc
after_archive-HasReport r s (crashed x) w known e = cc
after_archive-HasReport r s (done item) w {content} known e =
    elim (Bool-cases (leb 400 r.status_code)) [
      | inl refused ↦ let clash : false ≡ true = ground (arith, e, refused) in cc
      | inr fine ↦
          let (kind, status) = known item refl in
          let below : ltb item.http_status 400 ≡ true = rw status (ground (arith, fine)) in
          let hit : is_report item ≡ true = rw kind below in
          rw fine (any-snoc is_report s.items item ∙ rw hit (or_true (any is_report s.items)))
    ]
  where
    or_true : (b : Bool) → (b || true) ≡ true
    or_true true = refl
    or_true false = refl

module _ (env : Env) (id : ℕ) (code : Text) where
  after_retry-HasReport :
      (request : FetchRequest) (o : Outcome (RawResponse × ℕ)) (s : Run) {content : Bytes}
      → request.kind ≡ report_file
      → (after_retry env id code request (o, s)).0 ≡ done content
      → any is_report (after_retry env id code request (o, s)).1.items ≡ true
  unfolding after_retry
  after_retry-HasReport request (stopped x) s kind e = cc
  after_retry-HasReport request (crashed x) s kind e = cc
  after_retry-HasReport request (done (r, attempts)) s kind e =
      let asked = with_attempts attempts request in
      after_archive-HasReport r s _ _
        (λ item q.
          let (archived, _) =
            archive-Archival env.store id (suc (length s.items)) code asked r s.world q in
          (archived.kind_of ∙ with_attempts-kind attempts request ∙ kind, archived.status_of))
        e

  fetch-HasReport :
      (request : FetchRequest) (s : Run) {content : Bytes}
      → request.kind ≡ report_file
      → (fetch env id code request s).0 ≡ done content
      → any is_report (fetch env id code request s).1.items ≡ true
  unfolding fetch
  fetch-HasReport request s {content} kind e =
      elim (Bool-cases (leb max_requests (length s.items))) [
        | inl full ↦ let clash : false ≡ true = ground (arith, e, full) in cc
        | inr room ↦ rw room (after_retry-HasReport request _ _ kind (rw room at e))
      ]

  or_skipped-some :
      (request : FetchRequest) (o : Outcome Bytes) (s : Run) {content : Bytes}
      → (or_skipped request (o, s)).0 ≡ done (some content)
      → (o ≡ done content) × ((or_skipped request (o, s)).1 ≡ s)
  unfolding or_skipped
  or_skipped-some request (done b) s e = (cc, refl)
  or_skipped-some request (crashed x) s e = cc
  or_skipped-some request (stopped x) s {content} e =
      elim (Bool-cases (contains item_level_errors x.code)) [
        | inl y ↦ let clash : done none ≡ done (some content) = rw y at e in cc
        | inr n ↦ let clash : stopped x ≡ done (some content) = rw n at e in cc
      ]

  fetch_optional-HasReport :
      (request : FetchRequest) (s : Run) {content : Bytes}
      → request.kind ≡ report_file
      → (fetch_optional env id code request s).0 ≡ done (some content)
      → any is_report (fetch_optional env id code request s).1.items ≡ true
  unfolding fetch_optional
  fetch_optional-HasReport request s kind e =
      let fetched = fetch env id code request s in
      let (ended, same) = or_skipped-some request fetched.0 fetched.1 e in
      subst (λ (t : Run). any is_report t.items ≡ true) (sym same)
        (fetch-HasReport request s kind ended)

  -- A script that needs a report has one when it has ended well.
  play-HasReport :
      (script : Script) (s : Run)
      → NeedsReport script
      → (play env id code script s).0 ≡ done tt
      → any is_report (play env id code script s).1.items ≡ true
  unfolding play NeedsReport HasReport
  play-HasReport finished s needs e = cc
  play-HasReport (fails x) s needs e = cc
  play-HasReport (fetching request next) s needs e =
      let t = (fetch env id code request s).1 in
      elim (Outcome-cases (fetch env id code request s).0) [
        | inl (b, q) ↦ rw (q, play) (play-HasReport (next b) t (needs b) (rw (q, play) at e))
        | inr (inl (x, q)) ↦ let clash : stopped x ≡ done tt = rw (q, play) at e in cc
        | inr (inr (x, q)) ↦ let clash : crashed x ≡ done tt = rw (q, play) at e in cc
      ]
  play-HasReport (trying request next) s needs e =
      let t = (fetch_optional env id code request s).1 in
      elim (Outcome-cases (fetch_optional env id code request s).0) [
        | inl (answer, q) ↦ elim (Option-cases answer) [
          | inl none_left ↦
              let q : (fetch_optional env id code request s).0 ≡ done none =
                q ∙ ap done none_left in
              rw (q, play) (play-HasReport (next none) t needs.0 (rw (q, play) at e))
          | inr (b, some_left) ↦
              let q : (fetch_optional env id code request s).0 ≡ done (some b) =
                q ∙ ap done some_left in
              elim (needs.1 b) [
                | inl kind ↦
                    rw (q, play)
                      (play-Holds (HasReport-IsKept env id code) (next (some b)) t
                        (fetch_optional-HasReport request s kind q))
                | inr more ↦
                    rw (q, play) (play-HasReport (next (some b)) t more (rw (q, play) at e))
              ]
        ]
        | inr (inl (x, q)) ↦ let clash : stopped x ≡ done tt = rw (q, play) at e in cc
        | inr (inr (x, q)) ↦ let clash : crashed x ≡ done tt = rw (q, play) at e in cc
      ]

ask_reports-NeedsReport : (c : Settings) (l : List Report) → NeedsReport (ask_reports c l 0)
unfolding ask_reports report_request NeedsReport
ask_reports-NeedsReport c [] = tt
ask_reports-NeedsReport c (x ∷ l) = (ask_reports-NeedsReport c l, λ content. inl refl)

ask_all-NeedsReport : (c : Settings) (l : List Report) → NeedsReport (ask_all c l)
unfolding NeedsReport
ask_all-NeedsReport c [] = tt
ask_all-NeedsReport c (x ∷ l) = ask_reports-NeedsReport c (by_id (x ∷ l))

module _ (r : Reader) (c : Settings) (code org_id : Text) where
  end_of : List Object → Script
  end_of rows = ask_all c (without_relisted (reports_in r rows))

  ask_pages-NeedsReport :
      (rounds page : ℕ) (rows : List Object)
      → NeedsReport (ask_pages r c code org_id rounds page rows end_of)
  unfolding ask_pages NeedsReport end_of
  ask_pages-NeedsReport zero page rows = tt
  ask_pages-NeedsReport (suc rounds) page rows = λ content.
      elim (Read-cases (read_page r page content)) [
        | inl ((more, is_last), e) ↦ elim (Bool-cases is_last) [
          | inl b ↦ rw e (rw b (ask_all-NeedsReport c _))
          | inr b ↦ rw e (rw b (ask_pages-NeedsReport rounds (suc page) (rows ++ more)))
        ]
        | inr (x, e) ↦ rw e tt
      ]

with_org-NeedsReport :
    (r : Reader) (c : Settings) (code : Text) (o : Read Text) → NeedsReport (with_org r c code o)
unfolding NeedsReport end_of
with_org-NeedsReport r c code (unreadable e) = tt
with_org-NeedsReport r c code (got org_id) = ask_pages-NeedsReport r c code org_id max_pages 1 []

collect-NeedsReport :
    (r : Reader) (c : Settings) (code : SecurityCode) → NeedsReport (collect r c code)
unfolding collect NeedsReport
collect-NeedsReport r c code =
    λ content. with_org-NeedsReport r c code.code (read_org r code.code content)

-- The collector of disclosures ends without an error only when the batch has kept an annual report that
-- came with a status below 400: whatever the responses are, and whatever was skipped, a company
-- without any report ends it with an error.
pub collect-has_report :
    (env : Env) (id : ℕ) (r : Reader) (c : Settings) (code : SecurityCode) (s : Run)
    → (play env id code.code (collect r c code) s).0 ≡ done tt
    → any is_report (play env id code.code (collect r c code) s).1.items ≡ true
collect-has_report env id r c code s e =
    play-HasReport env id code.code (collect r c code) s (collect-NeedsReport r c code) e
