-- ===== src/Intake/Views.antt =====
-- The progress part of `SecurityRequestService` (app/app/application/securities/request_service.py).
use info_backend.Prelude.{
  ℕ, Bool, true, false, not, ◌||◌, Option, none, some, List, count, if◌then◌else◌, is_some,
}
use info_backend.Intake.Domain.{
  RequestStatus, Progress, SecurityRequest, IngestionState, DatasetState, is_final, is_pending,
  progress_after_approval,
}
use info_backend.Intake.Unit.{Env, M, pure, read_clock, traverse, ◌>>=◌, ◌>>◌}
use info_backend.Intake.Store.{close}
use info_backend.Intake.Queries.{open_of, ingestion_state, dataset_of}

pub record RequestView : Type 0 where
  pub request : SecurityRequest
  pub progress : Progress
  pub dataset : Option DatasetState

-- `_closed_progress`
unfoldable pub closed_progress : RequestStatus → Progress
closed_progress RequestStatus.rejected = Progress.rejected
closed_progress RequestStatus.withdrawn = Progress.withdrawn
closed_progress _ = Progress.failed

abbrev or_closed : Option Progress → RequestStatus → Progress
or_closed (some outcome) status = outcome
or_closed none status = closed_progress status

abbrev pub is_available : Progress → Bool
is_available Progress.available = true
is_available _ = false

unfoldable pub dataset_of_id : Option ℕ → M (Option DatasetState)
dataset_of_id none = pure none
dataset_of_id (some id) = dataset_of id

unfoldable pub ingestion_of_id : Option ℕ → M (Option IngestionState)
ingestion_of_id none = pure none
ingestion_of_id (some id) = ingestion_state id

abbrev pub kept_if_available : Progress → Option DatasetState → Option DatasetState
kept_if_available progress dataset = if is_available progress then dataset else none

-- The first branch of `_view`: the request has ended.
unfoldable pub view_ended : SecurityRequest → M RequestView
unfolding closed_progress dataset_of_id
view_ended request = do
  let outcome = or_closed request.outcome request.status
  dataset ← (if is_available outcome then dataset_of_id request.ingestion_id else pure none)
  pure (record { request = request; progress = outcome; dataset = dataset })

-- `close`, where the progress is final
unfoldable pub record_end : Env → SecurityRequest → Progress → M (Unit {0})
record_end env request progress =
    if is_final progress
    then (do at ← read_clock env; close request.request_id progress at)
    else pure tt

-- The last part of `_view`: the request is approved, and its progress is derived.
unfoldable pub view_approved : Env → SecurityRequest → M RequestView
unfolding record_end dataset_of_id ingestion_of_id
view_approved env request = do
  ingestion ← ingestion_of_id request.ingestion_id
  dataset ← dataset_of_id request.ingestion_id
  let progress = progress_after_approval ingestion dataset env.registration_enabled
  record_end env request progress
  pure (record {
    request = request;
    progress = progress;
    dataset = kept_if_available progress dataset;
  })

-- `_view`
unfoldable pub view : Env → SecurityRequest → M RequestView
unfolding view_ended view_approved
view env request =
    if not request.is_open || is_some request.outcome
    then view_ended request
    else if is_pending request.status
    then pure (record { request = request; progress = Progress.pending; dataset = none })
    else view_approved env request

-- `_views`
unfoldable pub views : Env → List SecurityRequest → M (List RequestView)
views env = traverse (view env)

abbrev pub unfinished : RequestView → Bool
unfinished v = not (is_final v.progress)

-- `_my_open_count`
unfoldable pub my_open_count : Env → ℕ → M ℕ
unfolding views
my_open_count env actor_id = do
  requests ← open_of actor_id
  found ← views env requests
  pure (count unfinished found)
