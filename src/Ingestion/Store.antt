-- ===== src/Ingestion/Store.antt =====
-- `SqlIngestionStore` (app/app/infrastructure/securities/store.py): the batches and what becomes of them.
-- An operation is one transaction.
use info_backend.Prelude.{
  ℕ, suc, Bool, Option, none, some, List, [], ◌∷◌, ◌++◌, find?, update, take, Text, codes, contains,
  ◌==◌, if◌then◌else◌,
}
use info_backend.SecurityCode.{SecurityCode, Market, security_code}
use info_backend.Intake.Domain.{IngestionStatus, pending, running, succeeded}
use info_backend.Ingestion.Domain.{
  ItemKind, Meta, StoredSummary, Outcome, done, crashed, unregistered_source, batch_absent,
  invalid_code, source_text, cninfo, eastmoney_f10,
}
use info_backend.Ingestion.Storage.{Backend, Bucket}

-- A row of `security_ingestion`. `summary` is the JSON that `finish` writes.
pub record Batch : Type 0 where
  pub id : ℕ
  pub security_code : Text
  pub market : Market
  pub status : IngestionStatus
  pub sources : List Text
  pub requested_at : ℕ
  pub started_at : Option ℕ
  pub finished_at : Option ℕ
  pub summary : Option StoredSummary
  pub error_code : Option Text
  pub error_detail : Option Text
  pub dataset_build_error : Option Text
  pub dataset_build_refused_at : Option ℕ

-- A row of `crawl_job`, as a collection writes it.
pub record Job : Type 0 where
  pub id : ℕ
  pub source_code : Text
  pub target_url : Text
  pub final_url : Text
  pub has_succeeded : Bool
  pub http_status : ℕ
  pub ingestion_id : ℕ
  pub seq : ℕ
  pub kind : ItemKind
  pub error_code : Option Text
  pub attempt_count : ℕ
  pub started_at : ℕ
  pub finished_at : ℕ
  pub method : Text
  pub params : List (Text × Text)
  pub form : Option (List (Text × Text))
  pub content_type : Text
  pub decoded_from : Option Text

-- A row of `raw_artifact`; the last three stand in its `metadata_json`.
pub record Artifact : Type 0 where
  pub id : ℕ
  pub crawl_job_id : ℕ
  pub kind : ItemKind
  pub bucket : Text
  pub object_key : Text
  pub version_id : Option Text
  pub sha256 : Text
  pub size_bytes : ℕ
  pub content_type : Text
  pub created_at : ℕ
  pub security_code : Text
  pub source : Text
  pub meta : Meta

-- A row of `security_ingestion_item`.
pub record Item : Type 0 where
  pub ingestion_id : ℕ
  pub seq : ℕ
  pub source_code : Text
  pub kind : ItemKind
  pub crawl_job_id : ℕ
  pub raw_artifact_id : ℕ
  pub sha256 : Text
  pub size_bytes : ℕ
  pub reused : Bool
  pub http_status : ℕ
  pub meta : Meta

-- The tables and the bucket. `sources` holds the codes of `knowfeed_source`; `tick` counts the readings of
-- the clock, `calls` those of the fetcher.
pub record World : Type 0 where
  pub batches : List Batch
  pub sources : List Text
  pub jobs : List Job
  pub artifacts : List Artifact
  pub items : List Item
  pub bucket : Bucket
  pub tick : ℕ
  pub calls : ℕ

pub record StoreEnv : Type 0 where
  pub digit : ℕ → Bool
  pub clock : ℕ → ℕ
  pub db_now : ℕ → ℕ
  pub backend : Backend
  pub new_id : World → ℕ

abbrev pub tick : World → World
tick w = record w { tick = suc w.tick }

abbrev pub has_id : ℕ → Batch → Bool
has_id id b = b.id == id

abbrev pub batch_of : ℕ → World → Option Batch
batch_of id w = find? (has_id id) w.batches

abbrev pub write_batch : ℕ → (Batch → Batch) → World → World
write_batch id f w = record w { batches = update (has_id id) f w.batches }

-- The keys of `SOURCES`
abbrev pub registered : List Text
registered = source_text cninfo ∷ source_text eastmoney_f10 ∷ []

abbrev pub add_source : Text → List Text → List Text
add_source source rows = if contains rows source then rows else rows ++ source ∷ []

-- The loop of `start_in`; an unknown source ends the transaction.
unfoldable pub register_sources : List Text → List Text → Option (List Text)
unfolding contains
register_sources [] rows = some rows
register_sources (source ∷ sources) rows =
    let rest = register_sources sources (add_source source rows) in
    if contains registered source then rest else none

unfoldable pub new_batch : ℕ → SecurityCode → List Text → ℕ → Batch
new_batch id code sources at = record {
  id = id;
  security_code = code.code;
  market = code.market;
  status = pending;
  sources = sources;
  requested_at = at;
  started_at = none;
  finished_at = none;
  summary = none;
  error_code = none;
  error_detail = none;
  dataset_build_error = none;
  dataset_build_refused_at = none;
}

unfoldable pub insert_batch :
    StoreEnv → SecurityCode → List Text → World → Option (List Text) → Outcome ℕ × World
unfolding new_batch
insert_batch env code sources w none = (crashed unregistered_source, w)
insert_batch env code sources w (some rows) =
    let id = env.new_id w in
    let batch = new_batch id code sources (env.clock w.tick) in
    (done id, record w { sources = rows; batches = w.batches ++ batch ∷ []; tick = suc w.tick })

-- `start` with `start_in`
unfoldable pub start : StoreEnv → SecurityCode → List Text → World → Outcome ℕ × World
unfolding register_sources insert_batch
start env code sources w = insert_batch env code sources w (register_sources sources w.sources)

unfoldable pub refused_build : Text → ℕ → Batch → Batch
refused_build error at b = record b {
  dataset_build_error = some (take 80 error);
  dataset_build_refused_at = some at;
}

-- `record_build_refusal`; a missing row reads no clock.
unfoldable pub record_build_refusal : StoreEnv → ℕ → Text → World → World
unfolding refused_build
record_build_refusal env id error w =
    let now = env.clock w.tick in
    elim (batch_of id w) [ none ↦ w | some b ↦ tick (write_batch id (refused_build error now) w) ]

unfoldable pub interrupted : ℕ → Batch → Batch
interrupted at b = record b {
  status = IngestionStatus.failed;
  finished_at = some at;
  error_code = some (codes "interrupted");
}

unfoldable pub begun : ℕ → Batch → Batch
begun at b = record b { status = running; started_at = some at }

-- `SecurityCode(batch.security_code)` raises before anything is written.
unfoldable pub begin_pending :
    StoreEnv → ℕ → World → Option SecurityCode → Outcome (Option SecurityCode) × World
unfolding begun
begin_pending env id w none = (crashed invalid_code, w)
begin_pending env id w (some code) =
    (done (some code), tick (write_batch id (begun (env.clock w.tick)) w))

unfoldable pub begin_found :
    StoreEnv → ℕ → World → Batch → IngestionStatus → Outcome (Option SecurityCode) × World
unfolding interrupted begin_pending
begin_found env id w b running =
    (done none, tick (write_batch id (interrupted (env.clock w.tick)) w))
begin_found env id w b pending = begin_pending env id w (security_code env.digit b.security_code)
begin_found env id w b succeeded = (done none, w)
begin_found env id w b IngestionStatus.failed = (done none, w)

-- `begin`
unfoldable pub begin : StoreEnv → ℕ → World → Outcome (Option SecurityCode) × World
unfolding begin_found
begin env id w = elim (batch_of id w) [
  | none ↦ (done none, w)
  | some b ↦ begin_found env id w b b.status
]

unfoldable pub finished :
    IngestionStatus → ℕ → StoredSummary → Option Text → Option Text → Batch → Batch
finished status at summary error_code error_detail b = record b {
  status = status;
  finished_at = some at;
  summary = some summary;
  error_code = error_code;
  error_detail = error_detail;
}

-- `finish`
unfoldable pub finish :
    StoreEnv
    → ℕ
    → IngestionStatus
    → StoredSummary
    → Option Text
    → Option Text
    → World
    → Outcome (Unit {0}) × World
unfolding finished
finish env id status summary error_code error_detail w =
    let now = env.clock w.tick in
    elim (batch_of id w) [
      | none ↦ (crashed batch_absent, w)
      | some b ↦
          (done tt, tick (write_batch id (finished status now summary error_code error_detail) w))
    ]
