-- ===== src/Ingestion/Keeps.antt =====
-- What the requests of collectors keep (app/app/application/securities/ingestion_service.py): a property of
-- the tables and the items that calls of the fetcher and `archive` keep holds after any collection.
use info_backend.Prelude.{
  ℕ, zero, suc, ◌<◌, ◌≡◌, ◌≢◌, refl, ◌∙◌, not, ◌||◌, List, [], ◌∷◌, ◌++◌, length, arith, Text,
  Bool-cases, inl, inr, leb, ◌==◌, contains,
}
use info_backend.SecurityCode.{SecurityCode}
use info_backend.Ingestion.Domain.{
  FetchRequest, RawResponse, ArchivedItem, Bytes, Outcome, Outcome-cases, done, stopped, crashed,
}
use info_backend.Ingestion.Store.{World}
use info_backend.Ingestion.Archive.{archive}
use info_backend.Ingestion.Context.{
  Env, Run, Script, finished, fails, fetching, trying, fetch_from, fetch_with_retry, with_attempts,
  is_transient, max_attempts, max_requests, called, backed_off, paused, after_archive, after_retry,
  fetch, fetch_optional, or_skipped, skip, item_level_errors, play,
}
use info_backend.Ingestion.Service.{Collector, collect_all}

abbrev pub Property : Type 1
Property = World → List ArchivedItem → Type 0

pub record IsKept (env : Env) (id : ℕ) (code : Text) (P : Property) : Type 0 where
  pub by_call :
      (w : World) (items : List ArchivedItem)
      → P w items
      → P (record w { calls = suc w.calls }) items
  pub by_failure :
      (request : FetchRequest) (r : RawResponse) (w : World) (items : List ArchivedItem)
      → P w items
      → ((item : ArchivedItem)
          → (archive env.store id code (suc (length items)) request r w).0 ≢ done item)
      → P (archive env.store id code (suc (length items)) request r w).1 items
  pub by_archive :
      (request : FetchRequest) (r : RawResponse) (w : World) (items : List ArchivedItem)
      (item : ArchivedItem)
      → length items < max_requests
      → P w items
      → (archive env.store id code (suc (length items)) request r w).0 ≡ done item
      → P (archive env.store id code (suc (length items)) request r w).1 (items ++ item ∷ [])

-- The attempts of a request make calls, and nothing else.
module _ (env : Env) {P : Property}
    (by_call : (w : World) (items : List ArchivedItem)
      → P w items
      → P (record w { calls = suc w.calls }) items) where
  fetch_from-Holds :
      (request : FetchRequest) (rounds attempt : ℕ) (s : Run)
      → P s.world s.items
      → let t = (fetch_from env request rounds attempt s).1 in
        P t.world t.items × (t.items ≡ s.items)
  unfolding fetch_from
  fetch_from-Holds request zero attempt s h = (h, refl)
  fetch_from-Holds request (suc rounds) attempt s h =
      let next = by_call s.world s.items h in
      elim (Bool-cases
        (attempt == max_attempts || not (is_transient (env.fetcher s.world.calls request)))) [
          | inl e ↦ rw e (next, refl)
          | inr e ↦
              rw e
                (fetch_from-Holds request rounds (suc attempt) (backed_off attempt (called s)) next)
        ]

  paused-Holds :
      (s : Run)
      → P s.world s.items
      → P (paused s).world (paused s).items × ((paused s).items ≡ s.items)
  paused-Holds s h = elim (Bool-cases (leb 1 (length s.items))) [
    | inl e ↦ rw e (h, refl)
    | inr e ↦ rw e (h, refl)
  ]

  pub retried-Holds :
      (request : FetchRequest) (s : Run)
      → P s.world s.items
      → let t = (fetch_with_retry env request (paused s)).1 in
        P t.world t.items × (t.items ≡ s.items)
  unfolding fetch_with_retry
  retried-Holds request s h =
      let (rested, p) = paused-Holds s h in
      let (asked, q) = fetch_from-Holds request max_attempts 1 (paused s) rested in (asked, q ∙ p)

module _ {env : Env} {id : ℕ} {code : Text} {P : Property} (k : IsKept env id code P) where
  abbrev Holds : Run → Type 0
  Holds s = P s.world s.items

  after_archive-Holds :
      (r : RawResponse) (s : Run) (o : Outcome ArchivedItem) (w : World)
      → (((item : ArchivedItem) → o ≢ done item) → P w s.items)
      → ((item : ArchivedItem) → o ≡ done item → P w (s.items ++ item ∷ []))
      → Holds (after_archive r s (o, w)).1
  unfolding after_archive
  after_archive-Holds r s (stopped e) w same grown = same (λ item clash. cc)
  after_archive-Holds r s (crashed e) w same grown = same (λ item clash. cc)
  after_archive-Holds r s (done item) w same grown = elim (Bool-cases (leb 400 r.status_code)) [
    | inl e ↦ rw e (grown item refl)
    | inr e ↦ rw e (grown item refl)
  ]

  after_retry-Holds :
      (request : FetchRequest) (o : Outcome (RawResponse × ℕ)) (s : Run)
      → length s.items < max_requests
      → Holds s
      → Holds (after_retry env id code request (o, s)).1
  unfolding after_retry
  after_retry-Holds request (stopped e) s room h = h
  after_retry-Holds request (crashed e) s room h = h
  after_retry-Holds request (done (r, attempts)) s room h =
      let asked = with_attempts attempts request in
      after_archive-Holds r s _ _ (k.by_failure asked r s.world s.items h)
        (λ item e. k.by_archive asked r s.world s.items item room h e)

  pub fetch-Holds :
      (request : FetchRequest) (s : Run) → Holds s → Holds (fetch env id code request s).1
  unfolding fetch
  fetch-Holds request s h = elim (Bool-cases (leb max_requests (length s.items))) [
    | inl e ↦ rw e h
    | inr e ↦
        let (asked, same) = retried-Holds env k.by_call request s h in
        let room : length (fetch_with_retry env request (paused s)).1.items < max_requests =
          rw same (ground (arith, e)) in
        rw e (after_retry-Holds request _ _ room asked)
  ]

  or_skipped-Holds :
      (request : FetchRequest) (o : Outcome Bytes) (s : Run)
      → Holds s
      → Holds (or_skipped request (o, s)).1
  unfolding or_skipped skip
  or_skipped-Holds request (done b) s h = h
  or_skipped-Holds request (crashed e) s h = h
  or_skipped-Holds request (stopped x) s h = elim (Bool-cases (contains item_level_errors x.code)) [
    | inl e ↦ rw e h
    | inr e ↦ rw e h
  ]

  pub fetch_optional-Holds :
      (request : FetchRequest) (s : Run) → Holds s → Holds (fetch_optional env id code request s).1
  unfolding fetch_optional
  fetch_optional-Holds request s h = or_skipped-Holds request _ _ (fetch-Holds request s h)

  -- Whatever a collector does, the property is kept.
  pub play-Holds : (script : Script) (s : Run) → Holds s → Holds (play env id code script s).1
  unfolding play
  play-Holds finished s h = h
  play-Holds (fails e) s h = h
  play-Holds (fetching request next) s h =
      let after = fetch-Holds request s h in
      elim (Outcome-cases (fetch env id code request s).0) [
        | inl (b, e) ↦ rw (e, play) (play-Holds (next b) (fetch env id code request s).1 after)
        | inr (inl (x, e)) ↦ rw (e, play) after
        | inr (inr (x, e)) ↦ rw (e, play) after
      ]
  play-Holds (trying request next) s h =
      let after = fetch_optional-Holds request s h in
      elim (Outcome-cases (fetch_optional env id code request s).0) [
        | inl (b, e) ↦
            rw (e, play) (play-Holds (next b) (fetch_optional env id code request s).1 after)
        | inr (inl (x, e)) ↦ rw (e, play) after
        | inr (inr (x, e)) ↦ rw (e, play) after
      ]

module _ {env : Env} {id : ℕ} {P : Property} (code : SecurityCode)
    (k : IsKept env id code.code P) where
  -- The same holds of all collectors of a batch.
  pub collect_all-Holds :
      (collectors : List Collector) (s : Run)
      → P s.world s.items
      → let t = (collect_all env id code collectors s).1 in P t.world t.items
  unfolding collect_all
  collect_all-Holds [] s h = h
  collect_all-Holds (collector ∷ collectors) s h =
      let script = collector.collect code in
      let after = play-Holds k script s h in
      elim (Outcome-cases (play env id code.code script s).0) [
        | inl (b, e) ↦
            rw (e, collect_all)
              (collect_all-Holds collectors (play env id code.code script s).1 after)
        | inr (inl (x, e)) ↦ rw (e, collect_all) after
        | inr (inr (x, e)) ↦ rw (e, collect_all) after
      ]
