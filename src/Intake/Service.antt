-- ===== src/Intake/Service.antt =====
-- The other operations of `SecurityRequestService` (app/app/application/securities/request_service.py).
-- Each runs in one unit of work and ends with its commit.
use info_backend.Prelude.{
  ℕ, Bool, true, ◌&&◌, Option, none, some, List, [], ◌∷◌, Text, codes, length, if◌then◌else◌,
  is_some, leb, ltb,
}
use info_backend.Intake.Domain.{
  RequestStatus, Progress, SecurityRequest, Result, ok, err, is_pending, requester,
  active_requesters, can_withdraw, strip, clean_reason, max_reason_chars, request_not_found,
  request_not_withdrawable, request_not_pending, rejection_note_required, rejection_note_too_long,
  max_open_invalid,
}
use info_backend.Intake.Unit.{
  Env, WatchRow, M, pure, raise, lift, read_clock, commit, or_raise, ◌>>=◌, ◌>>◌,
}
use info_backend.Intake.Store.{get, withdraw_requester, decide, close}
use info_backend.Intake.Queries.{of, all_of}
use info_backend.Intake.Watchlist
use info_backend.Intake.Steps.{code_of, stored_code, after_decision, approve_request}
use info_backend.Intake.Views.{RequestView, view, views}

-- `__init__`
unfoldable pub init : Env → Result Env
init env = if ltb env.max_open 1 then err max_open_invalid else ok env

-- `request is None or request.requester(actor_id) is None`
unfoldable pub required_part : ℕ → Option SecurityRequest → M SecurityRequest
required_part actor_id none = raise request_not_found
required_part actor_id (some request) =
    if is_some (requester request actor_id) then pure request else raise request_not_found

-- The last person withdraws the request itself.
unfoldable pub end_if_last : SecurityRequest → Text → ℕ → M (Unit {0})
end_if_last request by at =
    if leb (active_requesters request) 1
    then (do
      decide request.request_id RequestStatus.withdrawn by at none none
      close request.request_id Progress.withdrawn at)
    else pure tt

unfoldable pub withdraw : Env → ℕ → ℕ → M RequestView
unfolding required_part end_if_last after_decision
withdraw env request_id actor_id = do
  found ← get request_id
  request ← required_part actor_id found
  (if can_withdraw request actor_id then pure tt else raise request_not_withdrawable)
  now ← read_clock env
  withdraw_requester request_id actor_id now
  end_if_last request (env.actor_text actor_id) now
  after_decision env request_id

unfoldable pub mine : Env → ℕ → ℕ → M (List RequestView)
unfolding views
mine env actor_id limit = do found ← of actor_id limit; vs ← views env found; commit; pure vs

unfoldable pub one_of_mine : Env → ℕ → ℕ → M RequestView
unfolding required_part
one_of_mine env request_id actor_id = do
  found ← get request_id
  request ← required_part actor_id found
  v ← view env request
  commit
  pure v

unfoldable pub listing : Env → Option RequestStatus → Bool → ℕ → M (List RequestView)
unfolding views
listing env status open_only limit = do
  found ← all_of status open_only limit
  vs ← views env found
  commit
  pure vs

-- `_pending`
unfoldable pub pending_request : ℕ → M SecurityRequest
pending_request request_id = do
  found ← get request_id
  request ← or_raise request_not_found found
  if request.is_open && is_pending request.status then pure request else raise request_not_pending

abbrev added_on_approval : Text
added_on_approval = codes "批准申请时加入"

unfoldable pub add_on_approval : Env → SecurityRequest → Text → M Bool
unfolding stored_code
add_on_approval env request by = do
  code ← stored_code env request
  at ← read_clock env
  Watchlist.add code by (some added_on_approval) at

unfoldable pub approve : Env → ℕ → Text → Bool → M RequestView
unfolding pending_request approve_request add_on_approval after_decision
approve env request_id by add_to_watchlist = do
  request ← pending_request request_id
  approve_request env request by
  (if add_to_watchlist then add_on_approval env request by else pure true)
  after_decision env request_id

unfoldable pub checked_note : Text → M Text
checked_note [] = raise rejection_note_required
checked_note (c ∷ rest) =
    if ltb max_reason_chars (length (c ∷ rest))
    then raise rejection_note_too_long
    else pure (c ∷ rest)

unfoldable pub reject : Env → ℕ → Text → Text → M RequestView
unfolding checked_note pending_request after_decision
reject env request_id by note = do
  reason ← checked_note (strip env.space note)
  request ← pending_request request_id
  now ← read_clock env
  decide request.request_id RequestStatus.rejected by now (some reason) none
  close request.request_id Progress.rejected now
  after_decision env request_id

unfoldable pub watchlist : Bool → M (List WatchRow)
watchlist include_removed = Watchlist.entries include_removed

unfoldable pub watch : Env → Text → Text → Option Text → M Bool
unfolding code_of
watch env raw_code by note = do
  code ← code_of env raw_code
  cleaned ← lift (clean_reason env.space note)
  at ← read_clock env
  added ← Watchlist.add code by cleaned at
  commit
  pure added

unfoldable pub unwatch : Env → Text → Text → Option Text → M Bool
unfolding code_of
unwatch env raw_code by note = do
  code ← code_of env raw_code
  cleaned ← lift (clean_reason env.space note)
  at ← read_clock env
  removed ← Watchlist.remove code by cleaned at
  commit
  pure removed
