-- ===== src/Intake/Store.antt =====
-- `SqlRequestStore` of app/app/infrastructure/securities/request_store.py. A request's id is the
-- number of its UUID. `FOR UPDATE`, the advisory lock and `flush` do nothing to a lone session.
use mathlib.Core.Option
use info_backend.Prelude.{
  ℕ, Bool, true, false, ◌&&◌, Option, none, some, [], ◌∷◌, ◌++◌, take, any, find?, update,
  filter_by, sort_by, Text, text_eq, ◌==◌, if◌then◌else◌,
}
use info_backend.CrossApp.{Origin}
use info_backend.SecurityCode.{SecurityCode}
use info_backend.Intake.Domain.{
  RequestKind, RequestStatus, Progress, Requester, SecurityRequest, is_by, open_request_exists,
  no_result_found, security_request_missing, integrity_error,
}
use info_backend.Intake.Unit.{
  Db, Env, M, pure, raise, lift, gets, one_or_none, modify, or_raise, ◌>>=◌, ◌>>◌,
}

-- `NewRequester` of the port
pub record NewRequester : Type 0 where
  pub actor_id : ℕ
  pub reason : Option Text
  pub origin : Option Origin
  pub at : ℕ

unfoldable pub load : SecurityRequest → SecurityRequest
load row = record row { requesters = sort_by (λ one. one.requested_at) row.requesters }

abbrev pub has_id : ℕ → SecurityRequest → Bool
has_id request_id row = row.request_id == request_id

abbrev pub is_open_for : Text → SecurityRequest → Bool
is_open_for code row = text_eq row.security_code code && row.is_open

abbrev pub row_of : ℕ → Db → Option SecurityRequest
row_of request_id db = find? (has_id request_id) db.requests

unfoldable pub update_row : ℕ → (SecurityRequest → SecurityRequest) → Db → Db
update_row request_id f db = record db { requests = update (has_id request_id) f db.requests }

-- `_must`
unfoldable pub must : ℕ → M SecurityRequest
must request_id = do row ← gets (row_of request_id); or_raise security_request_missing row

unfoldable pub get : ℕ → M (Option SecurityRequest)
unfolding load
get request_id = gets (λ db. Option.map load (row_of request_id db))

unfoldable pub find_open : SecurityCode → M (Option SecurityRequest)
unfolding load
find_open code = do
  rows ← gets (λ db. filter_by (is_open_for code.code) db.requests)
  row ← lift (one_or_none rows)
  pure (Option.map load row)

abbrev pub new_row : Env → SecurityCode → RequestKind → Db → SecurityRequest
new_row env code kind db = record {
  request_id = env.new_request_id db;
  security_code = code.code;
  kind = kind;
  status = RequestStatus.pending;
  is_open = true;
  created_at = env.db_now;
  requesters = [];
  ingestion_id = none;
  decided_by = none;
  decided_at = none;
  decision_note = none;
  outcome = none;
  closed_at = none;
}

abbrev pub requester_row : NewRequester → Requester
requester_row new = record {
  actor_id = new.actor_id;
  reason = new.reason;
  origin = new.origin;
  requested_at = new.at;
  withdrawn_at = none;
}

abbrev pub with_requester : NewRequester → SecurityRequest → SecurityRequest
with_requester new row = record row { requesters = row.requesters ++ requester_row new ∷ [] }

-- `create`; the unique index `uq_security_request_open_code` refuses a second open row.
unfoldable pub create : Env → SecurityCode → RequestKind → NewRequester → M SecurityRequest
unfolding load
create env code kind new = do
  taken ← gets (λ db. any (is_open_for code.code) db.requests)
  if taken then raise open_request_exists else do
    row ← gets (λ db. with_requester new (new_row env code kind db))
    modify (λ db. record db { requests = db.requests ++ row ∷ [] })
    pure (load row)

-- What `join` writes into the row of a requester who is there already.
abbrev rejoined : NewRequester → Requester → Requester
rejoined new one = record one {
  reason = new.reason;
  origin = new.origin;
  requested_at = new.at;
  withdrawn_at = none;
}

unfoldable pub joined : NewRequester → SecurityRequest → SecurityRequest
joined new row =
    if any (is_by new.actor_id) row.requesters
    then record row { requesters = update (is_by new.actor_id) (rejoined new) row.requesters }
    else with_requester new row

-- `join`; the foreign key refuses a requester of a request that is not there.
unfoldable pub join : ℕ → NewRequester → M (Unit {0})
unfolding update_row joined
join request_id new = do
  row ← gets (row_of request_id)
  or_raise integrity_error row
  modify (update_row request_id (joined new))

unfoldable pub left : ℕ → ℕ → SecurityRequest → SecurityRequest
left actor_id at row = record row {
  requesters =
      update (is_by actor_id) (λ one. record one { withdrawn_at = some at }) row.requesters;
}

abbrev has_requester : ℕ → Option SecurityRequest → Bool
has_requester actor_id none = false
has_requester actor_id (some row) = any (is_by actor_id) row.requesters

unfoldable pub withdraw_requester : ℕ → ℕ → ℕ → M (Unit {0})
unfolding update_row left
withdraw_requester request_id actor_id at = do
  row ← gets (row_of request_id)
  if has_requester actor_id row
      then modify (update_row request_id (left actor_id at))
      else raise no_result_found

-- `ingestion_id if ingestion_id is not None else row.ingestion_id`
abbrev pub first_of_two : Option ℕ → Option ℕ → Option ℕ
first_of_two none old = old
first_of_two (some new) old = some new

unfoldable pub decided :
    RequestStatus → Text → ℕ → Option Text → Option ℕ → SecurityRequest → SecurityRequest
decided status by at note ingestion_id row = record row {
  status = status;
  decided_by = some (take 64 by);
  decided_at = some at;
  decision_note = note;
  ingestion_id = first_of_two ingestion_id row.ingestion_id;
}

unfoldable pub decide : ℕ → RequestStatus → Text → ℕ → Option Text → Option ℕ → M (Unit {0})
unfolding must update_row decided
decide request_id status by at note ingestion_id = do
  must request_id
  modify (update_row request_id (decided status by at note ingestion_id))

unfoldable pub closed : Progress → ℕ → SecurityRequest → SecurityRequest
closed outcome at row =
    if row.is_open
    then record row { is_open = false; outcome = some outcome; closed_at = some at }
    else row

-- `close`; a row that is closed already is left as it is.
unfoldable pub close : ℕ → Progress → ℕ → M (Unit {0})
unfolding must update_row closed
close request_id outcome at = do must request_id; modify (update_row request_id (closed outcome at))
