-- ===== src/Ingestion/Archive.antt =====
-- `archive` of `SqlIngestionStore` (app/app/infrastructure/securities/store.py): a response is kept under
-- a key that its content decides, and content that is there already is referred to.
use info_backend.Prelude.{
  ℕ, Bool, ◌&&◌, ◌||◌, Option, none, some, List, [], ◌∷◌, ◌++◌, length, take, filter_by, map,
  sort_by, Text, text_eq, codes, contains, ◌==◌, ltb, leb, if◌then◌else◌,
}
use info_backend.Ingestion.Domain.{
  FetchRequest, RawResponse, ArchivedItem, Outcome, done, stopped, crashed, digest_mismatch,
  no_source_row, source_text, decimal,
}
use info_backend.Ingestion.Storage.{Bucket, StoredObject, put_bytes}
use info_backend.Ingestion.Store.{Job, Artifact, Item, World, StoreEnv, tick}

-- `[0-9A-Za-z._-]`
abbrev pub is_safe : ℕ → Bool
is_safe c =
    leb b'0' c && leb c b'9'
    || leb b'A' c && leb c b'Z'
    || leb b'a' c && leb c b'z'
    || c == b'.'
    || c == b'_'
    || c == b'-'

abbrev or_object : Text → Text
or_object [] = codes "object"
or_object (c ∷ t) = c ∷ t

-- `_SAFE_NAME.sub("-", name)[:120] or "object"`
unfoldable pub safe_name : Text → Text
safe_name name = or_object (take 120 (map (λ c. if is_safe c then c else b'-') name))

-- `security_object_key`
unfoldable pub security_object_key : Text → Text → Text → Text → Text
unfolding safe_name
security_object_key code source sha256 name =
    codes "knowfeed/securities/code="
    ++ code
    ++ codes "/source="
    ++ source
    ++ codes "/sha256="
    ++ take 2 sha256
    ++ codes "/"
    ++ sha256
    ++ codes "/"
    ++ safe_name name

abbrev has_succeeded : ℕ → Bool
has_succeeded status = ltb status 400

unfoldable pub new_job : ℕ → ℕ → ℕ → FetchRequest → RawResponse → ℕ → Job
new_job id ingestion_id seq request response at =
    let status = response.status_code in
    record {
      id = id;
      source_code = source_text request.source;
      target_url = request.url;
      final_url = response.final_url;
      has_succeeded = has_succeeded status;
      http_status = status;
      ingestion_id = ingestion_id;
      seq = seq;
      kind = request.kind;
      error_code =
          if has_succeeded status then none else some (codes "http_status_" ++ decimal status);
      attempt_count = 1;
      started_at = at;
      finished_at = at;
      method = request.method;
      params = request.params;
      form = request.form;
      content_type = response.content_type;
      decoded_from = response.decoded_from;
    }

abbrev pub is_same_content : Text → Text → Text → Artifact → Bool
is_same_content bucket key sha256 a =
    text_eq a.bucket bucket && text_eq a.object_key key && text_eq a.sha256 sha256

abbrev pub first_of : {A : Type 0} → List A → Option A
first_of [] = none
first_of (x ∷ xs) = some x

-- The SELECT of `existing`
unfoldable pub existing_artifact : Text → Text → Text → List Artifact → Option Artifact
existing_artifact bucket key sha256 rows =
    first_of (sort_by (λ a. a.created_at) (filter_by (is_same_content bucket key sha256) rows))

unfoldable pub new_artifact : ℕ → ℕ → Text → FetchRequest → StoredObject → ℕ → Artifact
new_artifact id job_id code request stored at = record {
  id = id;
  crawl_job_id = job_id;
  kind = request.kind;
  bucket = stored.bucket;
  object_key = stored.object_key;
  version_id = stored.version_id;
  sha256 = stored.sha256;
  size_bytes = stored.size_bytes;
  content_type = stored.content_type;
  created_at = at;
  security_code = code;
  source = source_text request.source;
  meta = request.meta;
}

-- The row of the item
unfoldable pub new_item : ℕ → ℕ → FetchRequest → RawResponse → Text → ℕ → Artifact → Bool → Item
new_item ingestion_id seq request response sha256 job_id artifact reused = record {
  ingestion_id = ingestion_id;
  seq = seq;
  source_code = source_text request.source;
  kind = request.kind;
  crawl_job_id = job_id;
  raw_artifact_id = artifact.id;
  sha256 = sha256;
  size_bytes = length response.content;
  reused = reused;
  http_status = response.status_code;
  meta = request.meta;
}

-- The value that `archive` answers
unfoldable pub archived_item :
    ℕ → FetchRequest → RawResponse → Text → Artifact → Bool → ArchivedItem
archived_item seq request response sha256 artifact reused = record {
  seq = seq;
  source = request.source;
  kind = request.kind;
  sha256 = sha256;
  size_bytes = length response.content;
  object_key = artifact.object_key;
  reused = reused;
  http_status = response.status_code;
  meta = request.meta;
}

-- The commit of the item; `w` has the job and the artifact already.
unfoldable pub add_item :
    ℕ
    → ℕ
    → FetchRequest
    → RawResponse
    → Text
    → ℕ
    → Artifact
    → Bool
    → World
    → Outcome ArchivedItem × World
unfolding new_item archived_item
add_item ingestion_id seq request response sha256 job_id artifact reused w =
    let item = new_item ingestion_id seq request response sha256 job_id artifact reused in
    (
      done (archived_item seq request response sha256 artifact reused),
      record w { items = w.items ++ item ∷ [] },
    )

-- After the PUT: when it failed, or its digest differs, the rows are rolled back and the object stays.
unfoldable pub after_stored :
    StoreEnv
    → ℕ
    → ℕ
    → Text
    → FetchRequest
    → RawResponse
    → Text
    → Job
    → World
    → Outcome StoredObject × Bucket
    → Outcome ArchivedItem × World
unfolding add_item new_artifact
after_stored env ingestion_id seq code request response sha256 job w (stopped e, bucket) =
    (stopped e, record w { bucket = bucket })
after_stored env ingestion_id seq code request response sha256 job w (crashed e, bucket) =
    (crashed e, record w { bucket = bucket })
after_stored env ingestion_id seq code request response sha256 job w (done stored, bucket) =
    let u = record w { bucket = bucket; jobs = w.jobs ++ job ∷ [] } in
    let artifact = new_artifact (env.new_id u) job.id code request stored (env.db_now w.tick) in
    if text_eq stored.sha256 sha256
    then add_item ingestion_id seq request response sha256 job.id artifact Bool.false
        (record u { artifacts = w.artifacts ++ artifact ∷ [] })
    else (crashed digest_mismatch, record w { bucket = bucket })

unfoldable pub archive_with :
    StoreEnv
    → ℕ
    → ℕ
    → Text
    → FetchRequest
    → RawResponse
    → Text
    → Text
    → World
    → Option Artifact
    → Outcome ArchivedItem × World
unfolding after_stored add_item new_job
archive_with env ingestion_id seq code request response sha256 key w none =
    after_stored env ingestion_id seq code request response sha256
      (new_job (env.new_id w) ingestion_id seq request response (env.clock w.tick)) w
      (put_bytes env.backend key response.content response.content_type w.bucket)
archive_with env ingestion_id seq code request response sha256 key w (some artifact) =
    let job = new_job (env.new_id w) ingestion_id seq request response (env.clock w.tick) in
    add_item ingestion_id seq request response sha256 job.id artifact Bool.true
      (record w { jobs = w.jobs ++ job ∷ [] })

-- the clock was read once
abbrev pub ticked : Outcome ArchivedItem × World → Outcome ArchivedItem × World
ticked (o, w) = (o, tick w)

-- `archive`; the source must have its row.
unfoldable pub archive :
    StoreEnv → ℕ → Text → ℕ → FetchRequest → RawResponse → World → Outcome ArchivedItem × World
unfolding contains security_object_key existing_artifact archive_with
archive env ingestion_id code seq request response w =
    let source = source_text request.source in
    let sha256 = env.backend.sha256 response.content in
    let key = security_object_key code source sha256 request.name in
    let found = existing_artifact env.backend.bucket key sha256 w.artifacts in
    if contains w.sources source
    then ticked (archive_with env ingestion_id seq code request response sha256 key w found)
    else (crashed no_source_row, tick w)
