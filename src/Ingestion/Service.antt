-- ===== src/Ingestion/Service.antt =====
-- `SecurityIngestionService` (app/app/application/securities/ingestion_service.py).
use info_backend.Prelude.{ℕ, Option, none, some, List, [], ◌∷◌, map, Text}
use info_backend.SecurityCode.{SecurityCode, security_code}
use info_backend.Intake.Domain.{IngestionStatus, succeeded}
use info_backend.Ingestion.Domain.{
  CollectError, IngestionSummary, Outcome, done, stopped, crashed, invalid_code, not_runnable,
  bad_meta,
}
use info_backend.Ingestion.Store.{World, start, begin, finish, tick}
use info_backend.Ingestion.Context.{Env, Run, M, Script, play}
use info_backend.Ingestion.Summary.{Conversions, summarize, stored_summary}

-- The port `SecurityCollector`
pub record Collector : Type 0 where
  pub source : Text
  pub collect : SecurityCode → Script

pub record Service : Type 0 where
  pub env : Env
  pub conversions : Conversions
  pub collectors : List Collector

-- `__init__`; `none` is the ValueError.
unfoldable pub new_service : Env → Conversions → List Collector → Option Service
new_service env c [] = none
new_service env c (one ∷ more) =
    some (record { env = env; conversions = c; collectors = one ∷ more })

-- `sources`
abbrev pub sources : Service → List Text
sources s = map (λ c. c.source) s.collectors

unfoldable pub request_for : Service → World → Option SecurityCode → Outcome ℕ × World
request_for s w none = (crashed invalid_code, w)
request_for s w (some code) = start s.env.store code (sources s) w

-- `request`
unfoldable pub request : Service → Text → World → Outcome ℕ × World
unfolding request_for
request s raw_code w = request_for s w (security_code s.env.store.digit raw_code)

-- The loop of `run`: the first collector that stops ends it.
unfoldable pub collect_all : Env → ℕ → SecurityCode → List Collector → M (Option CollectError)
unfolding play
collect_all env id code [] s = (done none, s)
collect_all env id code (collector ∷ collectors) s =
    let r = play env id code.code (collector.collect code) s in
    elim r.0 [
      | done _ ↦ collect_all env id code collectors r.1
      | stopped e ↦ (done (some e), r.1)
      | crashed e ↦ (crashed e, r.1)
    ]

abbrev pub status_of : Option CollectError → IngestionStatus
status_of none = succeeded
status_of (some e) = IngestionStatus.failed

abbrev pub then_answer :
    IngestionSummary → Outcome (Unit {0}) × World → Outcome IngestionSummary × World
then_answer summary (done _, w) = (done summary, w)
then_answer summary (stopped e, w) = (stopped e, w)
then_answer summary (crashed e, w) = (crashed e, w)

unfoldable pub finish_with :
    Service → ℕ → World → Option IngestionSummary → Outcome IngestionSummary × World
unfolding stored_summary
finish_with s id w none = (crashed bad_meta, w)
finish_with s id w (some summary) = then_answer summary (
    finish s.env.store id summary.status (stored_summary summary) summary.error_code
      summary.error_detail w)

-- `run` after the collectors
unfoldable pub after_collection :
    Service
    → ℕ
    → SecurityCode
    → ℕ
    → Outcome (Option CollectError) × Run
    → Outcome IngestionSummary × World
unfolding finish_with summarize
after_collection s id code started (crashed e, r) = (crashed e, r.world)
after_collection s id code started (stopped e, r) = (stopped e, r.world)
after_collection s id code started (done error, r) =
    let ended = s.env.store.clock r.world.tick in
    finish_with s id (tick r.world)
      (summarize s.conversions id code.code (status_of error) started ended r.items error r.skipped)

abbrev pub new_run : World → Run
new_run w = record { world = w; items = []; skipped = []; pauses = 0; backoffs = [] }

unfoldable pub run_begun :
    Service → ℕ → Outcome (Option SecurityCode) × World → Outcome IngestionSummary × World
unfolding after_collection collect_all
run_begun s id (crashed e, w) = (crashed e, w)
run_begun s id (stopped e, w) = (stopped e, w)
run_begun s id (done none, w) = (crashed not_runnable, w)
run_begun s id (done (some code), w) =
    after_collection s id code (s.env.store.clock w.tick)
      (collect_all s.env id code s.collectors (new_run (tick w)))

-- `run`
unfoldable pub run : Service → ℕ → World → Outcome IngestionSummary × World
unfolding begin run_begun
run s id w = run_begun s id (begin s.env.store id w)

unfoldable pub run_requested : Service → Outcome ℕ × World → Outcome IngestionSummary × World
unfolding run
run_requested s (done id, w) = run s id w
run_requested s (stopped e, w) = (stopped e, w)
run_requested s (crashed e, w) = (crashed e, w)

-- `ingest`
unfoldable pub ingest : Service → Text → World → Outcome IngestionSummary × World
unfolding request run_requested
ingest s raw_code w = run_requested s (request s raw_code w)
