-- ===== src/Intake/Domain.antt =====
-- app/app/domain/securities/requests.py: a request, its requesters and its progress.
use info_backend.Prelude.{
  ℕ, Bool, true, false, ◌&&◌, ◌||◌, not, Option, none, some, List, [], ◌∷◌, reverse, length, any,
  count, find?, Text, ◌==◌, ltb, if◌then◌else◌, is_none,
}
use info_backend.CrossApp.{Origin}

abbrev pub max_reason_chars : ℕ
max_reason_chars = 500

pub data RequestKind : Type 0 where
  initial refresh : RequestKind

pub data RequestStatus : Type 0 where
  pending approved rejected withdrawn : RequestStatus

pub data Progress : Type 0 where
  pending rejected withdrawn queued collecting building registering available : Progress
  quality_failed failed registration_failed : Progress

-- `FINAL`
unfoldable pub is_final : Progress → Bool
is_final Progress.rejected = true
is_final Progress.withdrawn = true
is_final Progress.available = true
is_final Progress.quality_failed = true
is_final Progress.failed = true
is_final Progress.registration_failed = true
is_final _ = false

-- `RequestError` by its code, and the other exceptions on the paths of the service.
pub data Error : Type 0 where
  security_code_invalid reason_too_long reason_invalid too_many_open_requests : Error
  request_conflict request_not_found request_not_withdrawable request_not_pending : Error
  rejection_note_required rejection_note_too_long max_open_invalid : Error
  -- `InvalidSecurityCode`
  invalid_security_code : Error
  -- `RuntimeError("security_request_missing")` of the store
  security_request_missing : Error
  -- `OpenRequestExists`, and what `scalar_one` and `scalar_one_or_none` raise
  open_request_exists no_result_found multiple_results_found integrity_error : Error
  -- `assert fresh is not None`
  assertion_failed : Error

pub data Result {ℓ} (A : Type ℓ) : Type ℓ where
  ok : A → Result A
  err : Error → Result A

module _ (space : ℕ → Bool) where
  abbrev strip_left : Text → Text
  strip_left [] = []
  strip_left (c ∷ t) = let rest = strip_left t in if space c then rest else c ∷ t

  -- `str.strip`; which characters are white space is a table of Python's, so a parameter.
  unfoldable pub strip : Text → Text
  strip t = reverse (strip_left (reverse (strip_left t)))

unfoldable pub unprintable : ℕ → Bool
unprintable c = ltb c 32 && not (c == 10 || c == 9)

check_reason : Text → Result (Option Text)
unfolding unprintable
check_reason [] = ok none
check_reason (c ∷ t) =
    let text = c ∷ t in
    if ltb max_reason_chars (length text)
    then err reason_too_long
    else if any unprintable text
    then err reason_invalid
    else ok (some text)

unfoldable pub clean_reason : (ℕ → Bool) → Option Text → Result (Option Text)
unfolding check_reason
clean_reason space none = ok none
clean_reason space (some reason) = check_reason (strip space reason)

pub data IngestionStatus : Type 0 where
  pending running succeeded failed : IngestionStatus

pub record IngestionState : Type 0 where
  pub status : IngestionStatus
  pub error_code : Option Text
  pub build_error : Option Text

pub data DatasetStatus : Type 0 where
  published quality_failed : DatasetStatus

pub record DatasetState : Type 0 where
  pub status : DatasetStatus
  pub dataset_id : Text
  pub data_version : Text
  pub start_date : Text
  pub end_date : Text
  pub registered : Bool
  pub registration_error : Option Text

-- The truth value of a `str | None`: the empty text is false.
abbrev pub truthy : Option Text → Bool
truthy none = false
truthy (some []) = false
truthy (some (c ∷ t)) = true

abbrev pub is_published : DatasetStatus → Bool
is_published published = true
is_published quality_failed = false

after_dataset : DatasetState → Bool → Progress
after_dataset dataset registration_enabled =
    if not (is_published dataset.status)
    then Progress.quality_failed
    else if not registration_enabled || dataset.registered
    then Progress.available
    else if truthy dataset.registration_error
    then Progress.registration_failed
    else Progress.registering

after_ingestion : IngestionStatus → IngestionState → Option DatasetState → Bool → Progress
unfolding after_dataset
after_ingestion IngestionStatus.pending ingestion dataset registration_enabled = Progress.queued
after_ingestion running ingestion dataset registration_enabled = Progress.collecting
after_ingestion IngestionStatus.failed ingestion dataset registration_enabled = Progress.failed
after_ingestion succeeded ingestion none registration_enabled =
    if truthy ingestion.build_error then Progress.failed else Progress.building
after_ingestion succeeded ingestion (some dataset) registration_enabled =
    after_dataset dataset registration_enabled

unfoldable pub progress_after_approval :
    Option IngestionState → Option DatasetState → Bool → Progress
unfolding after_ingestion
progress_after_approval none dataset registration_enabled = Progress.queued
progress_after_approval (some ingestion) dataset registration_enabled =
    after_ingestion ingestion.status ingestion dataset registration_enabled

pub record Requester : Type 0 where
  pub actor_id : ℕ
  pub reason : Option Text
  pub origin : Option Origin
  pub requested_at : ℕ
  pub withdrawn_at : Option ℕ

abbrev pub is_active : Requester → Bool
is_active one = is_none one.withdrawn_at

pub record SecurityRequest : Type 0 where
  pub request_id : ℕ
  pub security_code : Text
  pub kind : RequestKind
  pub status : RequestStatus
  pub is_open : Bool
  pub created_at : ℕ
  pub requesters : List Requester
  pub ingestion_id : Option ℕ
  pub decided_by : Option Text
  pub decided_at : Option ℕ
  pub decision_note : Option Text
  pub outcome : Option Progress
  pub closed_at : Option ℕ

abbrev pub is_by : ℕ → Requester → Bool
is_by actor_id one = one.actor_id == actor_id

-- `requester`
unfoldable pub requester : SecurityRequest → ℕ → Option Requester
requester request actor_id = find? (is_by actor_id) request.requesters

unfoldable pub active_requesters : SecurityRequest → ℕ
active_requesters request = count is_active request.requesters

abbrev pub is_pending : RequestStatus → Bool
is_pending RequestStatus.pending = true
is_pending _ = false

-- `mine is not None and mine.active`
abbrev pub takes_part : Option Requester → Bool
takes_part none = false
takes_part (some mine) = is_active mine

unfoldable pub can_withdraw : SecurityRequest → ℕ → Bool
unfolding requester
can_withdraw request actor_id =
    request.is_open && is_pending request.status && takes_part (requester request actor_id)
