-- ===== src/Intake/Queries.antt =====
-- The queries of `SqlRequestStore`, and `start_ingestion`, which is `start_security_ingestion` of
-- app/app/bootstrap/securities.py with `start_in` of app/app/infrastructure/securities/store.py.
use mathlib.Core.Option
use info_backend.Prelude.{
  ℕ, Bool, true, false, ◌&&◌, Option, none, some, List, [], ◌∷◌, ◌++◌, reverse, map, take, any,
  find?, filter_by, sort_by, text_eq, ◌==◌, leb, if◌then◌else◌,
}
use info_backend.SecurityCode.{SecurityCode}
use info_backend.Intake.Domain.{
  RequestStatus, Requester, SecurityRequest, IngestionState, DatasetState, IngestionStatus, is_by,
  is_active, is_published,
}
use info_backend.Intake.Unit.{Env, IngestionRow, DatasetRow, M, pure, gets, modify, ◌>>=◌, ◌>>◌}
use info_backend.Intake.Store.{load}

abbrev pub is_part : ℕ → Requester → Bool
is_part actor_id one = is_by actor_id one && is_active one

-- The rows that `open_of` selects: open, and the person is an active requester.
abbrev pub is_open_of : ℕ → SecurityRequest → Bool
is_open_of actor_id row = row.is_open && any (is_part actor_id) row.requesters

unfoldable pub open_of : ℕ → M (List SecurityRequest)
open_of actor_id =
    gets (λ db.
      map load (sort_by (λ row. row.created_at) (filter_by (is_open_of actor_id) db.requests)))

unfoldable pub of : ℕ → ℕ → M (List SecurityRequest)
of actor_id limit = gets (λ db. map load (
    take limit (
      reverse (
        sort_by (λ row. row.created_at)
          (filter_by (λ row. any (is_by actor_id) row.requesters) db.requests)))))

abbrev same_status : RequestStatus → RequestStatus → Bool
same_status RequestStatus.pending RequestStatus.pending = true
same_status RequestStatus.approved RequestStatus.approved = true
same_status RequestStatus.rejected RequestStatus.rejected = true
same_status RequestStatus.withdrawn RequestStatus.withdrawn = true
same_status _ _ = false

abbrev has_status : Option RequestStatus → SecurityRequest → Bool
has_status none row = true
has_status (some status) row = same_status row.status status

abbrev listed : Bool → SecurityRequest → Bool
listed open_only row = if open_only then row.is_open else true

-- `all`; the limit applies to the rows that the conditions leave.
unfoldable pub all_of : Option RequestStatus → Bool → ℕ → M (List SecurityRequest)
all_of status open_only limit = gets (λ db. map load (
    take limit (
      sort_by (λ row. row.created_at)
        (filter_by (λ row. has_status status row && listed open_only row) db.requests))))

unfoldable pub ingestion_state : ℕ → M (Option IngestionState)
ingestion_state ingestion_id =
    gets (λ db. Option.map (λ row. row.state) (find? (λ row. row.id == ingestion_id) db.ingestions))

-- ORDER BY built_at DESC LIMIT 1
abbrev later : DatasetRow → Option DatasetRow → DatasetRow
later row none = row
later row (some other) = if leb other.built_at row.built_at then row else other

unfoldable pub newest : List DatasetRow → Option DatasetRow
newest [] = none
newest (row ∷ rows) = some (later row (newest rows))

unfoldable pub dataset_of : ℕ → M (Option DatasetState)
unfolding newest
dataset_of ingestion_id = gets (λ db.
    Option.map (λ row. row.state)
      (newest (filter_by (λ row. row.ingestion_id == ingestion_id) db.datasets)))

unfoldable pub latest_published : SecurityCode → M (Option DatasetState)
unfolding newest
latest_published code = gets (λ db.
    Option.map (λ row. row.state)
      (newest (
        filter_by (λ row. text_eq row.security_code code.code && is_published row.state.status)
          db.datasets)))

abbrev new_ingestion : ℕ → SecurityCode → IngestionRow
new_ingestion id code = record {
  id = id;
  security_code = code.code;
  state = record { status = IngestionStatus.pending; error_code = none; build_error = none };
}

unfoldable pub start_ingestion : Env → SecurityCode → M ℕ
start_ingestion env code = do
  id ← gets env.new_ingestion_id
  modify (λ db. record db { ingestions = db.ingestions ++ new_ingestion id code ∷ [] })
  modify (λ db. record db { queued = db.queued ++ id ∷ [] })
  pure id
