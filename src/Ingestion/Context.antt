-- ===== src/Ingestion/Context.antt =====
-- `_Context` of app/app/application/securities/ingestion_service.py: what a collector may do, with the
-- limit of requests and the retries. A collector is the tree of its requests: each next one depends on
-- the content of those before.
use info_backend.Prelude.{
  ℕ, zero, suc, Bool, not, ◌||◌, Option, none, some, List, [], ◌∷◌, ◌++◌, length, Text, codes,
  contains, ◌==◌, ltb, leb, if◌then◌else◌,
}
use info_backend.Ingestion.Domain.{
  Bytes, Value, put, FetchRequest, CollectError, SkippedItem, RawResponse, ArchivedItem,
  unreachable, Outcome, done, stopped, crashed, or_none, decimal,
}
use info_backend.Ingestion.Store.{World, StoreEnv}
use info_backend.Ingestion.Archive.{archive}

-- The answer of the port `RawFetcher`; `refused` is `FetchFailed`.
pub data Fetched : Type 0 where
  response : RawResponse → Fetched
  refused : Text → Fetched

-- The fetcher may answer each call differently.
pub record Env : Type 0 where
  pub store : StoreEnv
  pub fetcher : ℕ → FetchRequest → Fetched

-- The state of a context, with the pauses made and the attempts after which it backed off.
pub record Run : Type 0 where
  pub world : World
  pub items : List ArchivedItem
  pub skipped : List SkippedItem
  pub pauses : ℕ
  pub backoffs : List ℕ

abbrev pub M : Type 0 → Type 0
M A = Run → Outcome A × Run

abbrev pub max_requests : ℕ
max_requests = 400

abbrev pub max_attempts : ℕ
max_attempts = 3

abbrev pub transient_fetch_errors : List Text
transient_fetch_errors =
    codes "crawl_deadline_exceeded"
    ∷ codes "crawl_transport_failed"
    ∷ codes "crawl_content_encoding_invalid"
    ∷ codes "crawl_dns_failed"
    ∷ codes "crawl_dns_capacity_exhausted"
    ∷ []

abbrev pub is_transient_status : ℕ → Bool
is_transient_status s = s == 429 || s == 500 || s == 502 || s == 503 || s == 504

abbrev pub item_level_errors : List Text
item_level_errors = codes "fetch_failed" ∷ codes "http_status" ∷ []

-- What the loop does with an answer
unfoldable pub is_transient : Fetched → Bool
unfolding contains
is_transient (response r) = is_transient_status r.status_code
is_transient (refused code) = contains transient_fetch_errors code

abbrev pub settle : ℕ → Fetched → Outcome (RawResponse × ℕ)
settle attempt (response r) = done (r, attempt)
settle attempt (refused code) = stopped (record { code = codes "fetch_failed"; detail = code })

abbrev pub called : Run → Run
called s = record s { world = record s.world { calls = suc s.world.calls } }

abbrev pub backed_off : ℕ → Run → Run
backed_off attempt s = record s { backoffs = s.backoffs ++ attempt ∷ [] }

-- The loop of `_fetch_with_retry` from `attempt`, with `rounds` left of its range
unfoldable pub fetch_from : Env → FetchRequest → ℕ → ℕ → M (RawResponse × ℕ)
unfolding is_transient
fetch_from env request zero attempt s = (crashed unreachable, s)
fetch_from env request (suc rounds) attempt s =
    let answer = env.fetcher s.world.calls request in
    let again = fetch_from env request rounds (suc attempt) (backed_off attempt (called s)) in
    if attempt == max_attempts || not (is_transient answer)
    then (settle attempt answer, called s)
    else again

-- `_fetch_with_retry`
unfoldable pub fetch_with_retry : Env → FetchRequest → M (RawResponse × ℕ)
unfolding fetch_from
fetch_with_retry env request = fetch_from env request max_attempts 1

-- `replace(request, meta={**request.meta, "attempts": attempts})`
unfoldable pub with_attempts : ℕ → FetchRequest → FetchRequest
unfolding put
with_attempts attempts request =
    if ltb 1 attempts
    then record request { meta = put (codes "attempts") (Value.number attempts) request.meta }
    else request

abbrev pub paused : Run → Run
paused s = if leb 1 (length s.items) then record s { pauses = suc s.pauses } else s

-- The end of `fetch`
unfoldable pub after_archive :
    RawResponse → Run → Outcome ArchivedItem × World → Outcome Bytes × Run
unfolding decimal
after_archive r s (stopped e, w) = (stopped e, record s { world = w })
after_archive r s (crashed e, w) = (crashed e, record s { world = w })
after_archive r s (done item, w) =
    let after = record s { world = w; items = s.items ++ item ∷ [] } in
    if leb 400 r.status_code
    then (stopped (record { code = codes "http_status"; detail = decimal r.status_code }), after)
    else (done r.content, after)

unfoldable pub after_retry :
    Env → ℕ → Text → FetchRequest → Outcome (RawResponse × ℕ) × Run → Outcome Bytes × Run
unfolding after_archive with_attempts
after_retry env id code request (stopped e, s) = (stopped e, s)
after_retry env id code request (crashed e, s) = (crashed e, s)
after_retry env id code request (done (r, attempts), s) =
    after_archive r s
      (archive env.store id code (suc (length s.items)) (with_attempts attempts request) r s.world)

-- `fetch`
unfoldable pub fetch : Env → ℕ → Text → FetchRequest → M Bytes
unfolding fetch_with_retry after_retry
fetch env id code request s =
    if leb max_requests (length s.items)
    then (stopped (record { code = codes "too_many_requests"; detail = [] }), s)
    else after_retry env id code request (fetch_with_retry env request (paused s))

unfoldable pub skip : FetchRequest → CollectError → Run → Run
skip request e s = record s {
  skipped =
      s.skipped
      ++ record {
        source = request.source;
        kind = request.kind;
        name = request.name;
        error_code = e.code;
        error_detail = or_none e.detail;
        meta = request.meta;
      }
        ∷ [];
}

-- `except CollectError` of `fetch_optional`
unfoldable pub or_skipped : FetchRequest → Outcome Bytes × Run → Outcome (Option Bytes) × Run
unfolding skip contains
or_skipped request (done b, s) = (done (some b), s)
or_skipped request (crashed e, s) = (crashed e, s)
or_skipped request (stopped e, s) =
    if contains item_level_errors e.code then (done none, skip request e s) else (stopped e, s)

-- `fetch_optional`
unfoldable pub fetch_optional : Env → ℕ → Text → FetchRequest → M (Option Bytes)
unfolding fetch or_skipped
fetch_optional env id code request s = or_skipped request (fetch env id code request s)

-- The body of `collect` of a collector
pub data Script : Type 0 where
  finished : Script
  fails : CollectError → Script
  fetching : FetchRequest → (Bytes → Script) → Script
  trying : FetchRequest → (Option Bytes → Script) → Script

-- `collector.collect(code, ctx)`
unfoldable pub play : Env → ℕ → Text → Script → M (Unit {0})
unfolding fetch fetch_optional
play env id code finished s = (done tt, s)
play env id code (fails e) s = (stopped e, s)
play env id code (fetching request next) s =
    let r = fetch env id code request s in
    elim r.0 [
      | done b ↦ play env id code (next b) r.1
      | stopped e ↦ (stopped e, r.1)
      | crashed e ↦ (crashed e, r.1)
    ]
play env id code (trying request next) s =
    let r = fetch_optional env id code request s in
    elim r.0 [
      | done b ↦ play env id code (next b) r.1
      | stopped e ↦ (stopped e, r.1)
      | crashed e ↦ (crashed e, r.1)
    ]
