-- ===== src/Intake/Submit.antt =====
use mathlib.Core.Option
-- `submit` and `availability` of `SecurityRequestService`
-- (app/app/application/securities/request_service.py).
use info_backend.Prelude.{
  ℕ, Bool, false, Option, none, some, Text, codes, if◌then◌else◌, is_some, leb,
}
use info_backend.SecurityCode.{SecurityCode, Market}
use info_backend.CrossApp.{clean_origin}
use info_backend.Intake.Domain.{
  RequestKind, SecurityRequest, DatasetState, is_final, takes_part, requester, clean_reason,
  too_many_open_requests, request_conflict,
}
use info_backend.Intake.Unit.{
  Env, M, pure, raise, lift, modify, read_clock, commit, or_raise, or_on_conflict, ◌>>=◌, ◌>>◌,
}
use info_backend.Intake.Store.{NewRequester, find_open, create, join}
use info_backend.Intake.Queries.{latest_published}
use info_backend.Intake.Watchlist
use info_backend.Intake.Steps.{code_of, after_decision, approve_request}
use info_backend.Intake.Views.{RequestView, view, my_open_count}

pub record Availability : Type 0 where
  pub security_code : Text
  pub market : Market
  pub in_watchlist : Bool
  pub dataset : Option DatasetState
  pub open_request : Option RequestView
  pub mine : Bool
  pub my_open_count : ℕ
  pub max_open : ℕ

unfoldable pub unfinished_only : Env → Option SecurityRequest → M (Option SecurityRequest)
unfinished_only env none = pure none
unfinished_only env (some current) = do
  v ← view env current
  pure (if is_final v.progress then none else some current)

-- `_open_for`
unfoldable pub open_for : Env → SecurityCode → M (Option SecurityRequest)
unfolding unfinished_only
open_for env code = do found ← find_open code; unfinished_only env found

-- `_ensure_room`
unfoldable pub ensure_room : Env → ℕ → M (Unit {0})
ensure_room env actor_id = do
  n ← my_open_count env actor_id
  if leb env.max_open n then raise too_many_open_requests else pure tt

abbrev system_watchlist : Text
system_watchlist = codes "system:watchlist"

-- `_create`
unfoldable pub create_request : Env → SecurityCode → NewRequester → M SecurityRequest
unfolding approve_request
create_request env code new = do
  existing ← latest_published code
  let kind = if is_some existing then RequestKind.refresh else RequestKind.initial
  created ← create env code kind new
  watched ← Watchlist.contains code
  (if watched then approve_request env created system_watchlist else pure tt)
  pure created

unfoldable pub join_conflicting : Env → SecurityCode → NewRequester → M SecurityRequest
unfolding open_for
join_conflicting env code new = do
  found ← open_for env code
  current ← or_raise request_conflict found
  join current.request_id new
  pure current

-- The second half of `submit`: a new request, or one more requester of the open one.
unfoldable pub create_or_join :
    Env → SecurityCode → NewRequester → Option SecurityRequest → M SecurityRequest
unfolding create_request join_conflicting
create_or_join env code new none = do
  modify env.others
  or_on_conflict (create_request env code new) (join_conflicting env code new)
create_or_join env code new (some current) = do join current.request_id new; pure current

unfoldable pub submit_new :
    Env → SecurityCode → NewRequester → Option SecurityRequest → M RequestView
unfolding ensure_room create_or_join after_decision
submit_new env code new current = do
  ensure_room env new.actor_id
  request ← create_or_join env code new current
  after_decision env request.request_id

abbrev pub is_mine : ℕ → Option SecurityRequest → Bool
is_mine actor_id none = false
is_mine actor_id (some request) = takes_part (requester request actor_id)

unfoldable pub answer : Env → SecurityCode → NewRequester → Option SecurityRequest → M RequestView
unfolding submit_new
answer env code new none = submit_new env code new none
answer env code new (some request) =
    if is_mine new.actor_id (some request)
    then (do v ← view env request; commit; pure v)
    else submit_new env code new (some request)

-- `submit` below the checks of its arguments
unfoldable pub submit_checked : Env → SecurityCode → NewRequester → M RequestView
unfolding open_for answer
submit_checked env code new = do current ← open_for env code; answer env code new current

unfoldable pub submit : Env → Text → ℕ → Option Text → Option Text → Option Text → M RequestView
unfolding code_of submit_checked
submit env raw_code actor_id reason origin_app origin_ref = do
  code ← code_of env raw_code
  cleaned ← lift (clean_reason env.space reason)
  at ← read_clock env
  submit_checked env code (record {
    actor_id = actor_id;
    reason = cleaned;
    origin = clean_origin env.known_apps origin_app origin_ref;
    at = at;
  })

unfoldable pub unfinished_view : RequestView → Option RequestView
unfinished_view v = if is_final v.progress then none else some v

unfoldable pub view_of_open : Env → Option SecurityRequest → M (Option RequestView)
unfolding unfinished_view
view_of_open env none = pure none
view_of_open env (some request) = do v ← view env request; pure (unfinished_view v)

-- `availability`
unfoldable pub availability : Env → Text → ℕ → M Availability
unfolding code_of view_of_open
availability env raw_code actor_id = do
  code ← code_of env raw_code
  current ← find_open code
  v ← view_of_open env current
  in_watchlist ← Watchlist.contains code
  dataset ← latest_published code
  mine ← my_open_count env actor_id
  commit
  pure (record {
    security_code = code.code;
    market = code.market;
    in_watchlist = in_watchlist;
    dataset = dataset;
    open_request = v;
    mine = is_mine actor_id (Option.map (λ one. one.request) v);
    my_open_count = mine;
    max_open = env.max_open;
  })
