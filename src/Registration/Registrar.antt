-- ===== src/Registration/Registrar.antt =====
-- `KnowledgeDatasetRegistrar` (app/app/infrastructure/securities/knowledge_registrar.py) with the objects of
-- app/app/domain/securities/registration.py. The token source and the knowledge service are parameters.
use info_backend.Prelude.{
  ℕ, Bool, true, false, ◌&&◌, ◌||◌, Option, none, some, [], ◌∷◌, ◌++◌, Text, codes, text_eq, any,
  ◌==◌, if◌then◌else◌,
}

-- `DatasetRecord`, with the time of its building, by which the table is read.
pub record DatasetRecord : Type 0 where
  pub record_id : ℕ
  pub dataset_id : Text
  pub data_version : Text
  pub security_code : Text
  pub status : Text
  pub ingestion_id : Text
  pub bucket : Text
  pub object_key : Text
  pub version_id : Option Text
  pub sha256 : Text
  pub size_bytes : ℕ
  pub start_date : Text
  pub end_date : Text
  pub built_at : ℕ
  pub registered_at : Option ℕ
  pub registration_error : Option Text

unfoldable pub title : DatasetRecord → Text
title r = r.security_code ++ codes " 财务报表"

-- `RegistrationError` without its detail
pub record RegistrationError : Type 0 where
  pub code : Text
  pub retryable : Bool

-- The JSON object that is posted.
pub record Payload : Type 0 where
  pub dataset_id : Text
  pub data_version : Text
  pub title : Text
  pub security_code : Text
  pub object : Text
  pub object_version_id : Option Text
  pub sha256 : Text
  pub size_bytes : ℕ
  pub start_date : Text
  pub end_date : Text
  pub source_app : Text
  pub source_ref : Text
  pub quality_passed : Bool

-- The members of a reply's object that are looked at, where they are texts.
pub record Body : Type 0 where
  pub data_version : Option Text
  pub sha256 : Option Text
  pub status : Option Text

-- What `post` gives: an `HTTPError`, or a reply; its body is `none` where it is no JSON object.
pub data Reply : Type 0 where
  unreachable : Reply
  answered : (status_code : ℕ) (body : Option Body) → Reply

-- `has_tokens` tells whether there is a source of tokens, and `token` what `get_token` gives, if it does
-- not raise.
pub record Registrar : Type 0 where
  pub url : Option Text
  pub has_tokens : Bool
  pub token : Option Text
  pub source_app : Text
  pub post : Text → Text → Payload → Reply

abbrev is_url : Option Text → Bool
is_url none = false
is_url (some []) = false
is_url (some (c ∷ rest)) = true

unfoldable pub configured : Registrar → Bool
configured g = is_url g.url && g.has_tokens

unfoldable pub payload : Registrar → DatasetRecord → Payload
unfolding title
payload g r = record {
  dataset_id = r.dataset_id;
  data_version = r.data_version;
  title = title r;
  security_code = r.security_code;
  object = codes "s3://" ++ r.bucket ++ codes "/" ++ r.object_key;
  object_version_id = r.version_id;
  sha256 = r.sha256;
  size_bytes = r.size_bytes;
  start_date = r.start_date;
  end_date = r.end_date;
  source_app = g.source_app;
  source_ref = r.ingestion_id;
  quality_passed = true;
}

abbrev pub refusal : Text → Bool → Option RegistrationError
refusal code retryable = some (record { code = code; retryable = retryable })

abbrev pub has_text : Option Text → Text → Bool
has_text none t = false
has_text (some s) t = text_eq s t

unfoldable pub is_confirmed : Option Body → DatasetRecord → Bool
is_confirmed none r = false
is_confirmed (some body) r =
    has_text body.data_version r.data_version
    && has_text body.sha256 r.sha256
    && has_text body.status (codes "active")

-- `_check`
unfoldable pub check : Option Body → DatasetRecord → Option RegistrationError
unfolding is_confirmed
check body r =
    if is_confirmed body r then none else refusal (codes "knowledge_reply_unexpected") false

-- `_RETRYABLE`
unfoldable pub is_retryable : ℕ → Bool
is_retryable status = any (λ s. s == status) (408 ∷ 425 ∷ 429 ∷ 500 ∷ 502 ∷ 503 ∷ 504 ∷ [])

unfoldable pub code_of : ℕ → Text
code_of status =
    if status == 401 || status == 403
    then codes "knowledge_rejected_identity"
    else if status == 404
    then codes "knowledge_registry_disabled"
    else if status == 409
    then codes "knowledge_version_conflict"
    else if status == 422
    then codes "knowledge_refused_registration"
    else codes "knowledge_request_failed"

unfoldable pub judged : Reply → DatasetRecord → Option RegistrationError
unfolding check is_retryable code_of
judged unreachable r = refusal (codes "knowledge_unreachable") true
judged (answered status body) r =
    if status == 200 || status == 201
    then check body r
    else refusal (code_of status) (is_retryable status)

-- `register` once there is a token
unfoldable pub posted : Registrar → Text → DatasetRecord → Option Text → Option RegistrationError
unfolding judged payload
posted g url r none = refusal (codes "service_token_unavailable") true
posted g url r (some token) = judged (g.post url token (payload g r)) r

abbrev pub register_to : Registrar → DatasetRecord → Option Text → Option RegistrationError
register_to g r none = refusal (codes "registrar_not_configured") false
register_to g r (some url) =
    if configured g
    then posted g url r g.token
    else refusal (codes "registrar_not_configured") false

-- `register`; `none` is success.
unfoldable pub register : Registrar → DatasetRecord → Option RegistrationError
unfolding configured posted
register g r = register_to g r g.url
