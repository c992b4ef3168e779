-- ===== src/Intake/Operations.antt =====
-- Every operation of the service respects what the writes of the store respect.
use info_backend.Prelude.{ℕ, Bool, Option, none, some, [], ◌∷◌, Text}
use info_backend.SecurityCode.{SecurityCode}
use info_backend.Intake.Domain.{SecurityRequest, RequestStatus}
use info_backend.Intake.Unit.{Db, Env}
use info_backend.Intake.Keeps.{Keeps, Keeps-modify, keeps_rules}
use info_backend.Intake.Store.{NewRequester}
use info_backend.Intake.Queries
use info_backend.Intake.Steps.{approve_request}
use info_backend.Intake.Submit.{
  create_request, join_conflicting, create_or_join, submit_new, answer, submit_checked, submit,
  view_of_open, availability,
}
use info_backend.Intake.Service.{
  required_part, end_if_last, withdraw, mine, one_of_mine, listing, pending_request,
  add_on_approval, approve, checked_note, reject, watch, unwatch,
}
use info_backend.Intake.Stable.{IsStable}
use info_backend.Intake.Reading.{
  get-Keeps, find_open-Keeps, latest_published-Keeps, contains-Keeps, view-Keeps, views-Keeps,
  my_open_count-Keeps, after_decision-Keeps, open_for-Keeps, ensure_room-Keeps,
}

module _ (env : Env) {R : Db → Db → Type 0} (stable : IsStable env R) where
  open stable use {
    pre, others, create, join, withdraw_requester, decide, close, start_ingestion, add, remove,
  }

  approve_request-Keeps : (r : SecurityRequest) (by : Text) → Keeps R (approve_request env r by)
  unfolding approve_request
  approve_request-Keeps r by = search (keeps_rules, pre, start_ingestion, decide, tt) depth 9

  create_request-Keeps :
      (code : SecurityCode) (new : NewRequester) → Keeps R (create_request env code new)
  unfolding create_request
  create_request-Keeps code new =
      search
        (
          keeps_rules,
          pre,
          latest_published-Keeps env pre close,
          create,
          contains-Keeps env pre close,
          approve_request-Keeps,
        )
        depth 12

  join_conflicting-Keeps :
      (code : SecurityCode) (new : NewRequester) → Keeps R (join_conflicting env code new)
  unfolding join_conflicting
  join_conflicting-Keeps code new =
      search (keeps_rules, pre, open_for-Keeps env pre close, join) depth 9

  create_or_join-Keeps :
      (code : SecurityCode) (new : NewRequester) (o : Option SecurityRequest)
      → Keeps R (create_or_join env code new o)
  unfolding create_or_join
  create_or_join-Keeps code new none =
      search (keeps_rules, pre, Keeps-modify, others, create_request-Keeps, join_conflicting-Keeps)
  create_or_join-Keeps code new (some r) = search (keeps_rules, pre, join)

  submit_new-Keeps :
      (code : SecurityCode) (new : NewRequester) (o : Option SecurityRequest)
      → Keeps R (submit_new env code new o)
  unfolding submit_new
  submit_new-Keeps code new o =
      search
        (
          keeps_rules,
          pre,
          ensure_room-Keeps env pre close,
          create_or_join-Keeps,
          after_decision-Keeps env pre close,
        )
        depth 9

  answer-Keeps :
      (code : SecurityCode) (new : NewRequester) (o : Option SecurityRequest)
      → Keeps R (answer env code new o)
  unfolding answer
  answer-Keeps code new none = submit_new-Keeps code new none
  answer-Keeps code new (some r) =
      search (keeps_rules, pre, view-Keeps env pre close, submit_new-Keeps) depth 9

  pub submit-Keeps :
      (raw : Text) (actor_id : ℕ) (reason app ref : Option Text)
      → Keeps R (submit env raw actor_id reason app ref)
  unfolding submit submit_checked
  submit-Keeps raw actor_id reason app ref =
      search (keeps_rules, pre, open_for-Keeps env pre close, answer-Keeps) depth 12

  view_of_open-Keeps : (o : Option SecurityRequest) → Keeps R (view_of_open env o)
  unfolding view_of_open
  view_of_open-Keeps none = search (keeps_rules, pre)
  view_of_open-Keeps (some r) = search (keeps_rules, pre, view-Keeps env pre close)

  pub availability-Keeps : (raw : Text) (actor_id : ℕ) → Keeps R (availability env raw actor_id)
  unfolding availability
  availability-Keeps raw actor_id =
      search
        (
          keeps_rules,
          pre,
          find_open-Keeps env pre close,
          view_of_open-Keeps,
          contains-Keeps env pre close,
          latest_published-Keeps env pre close,
          my_open_count-Keeps env pre close,
        )
        depth 16

  required_part-Keeps :
      (actor_id : ℕ) (o : Option SecurityRequest) → Keeps R (required_part actor_id o)
  unfolding required_part
  required_part-Keeps actor_id none = search keeps_rules
  required_part-Keeps actor_id (some r) = search (keeps_rules, pre)

  end_if_last-Keeps : (r : SecurityRequest) (by : Text) (at : ℕ) → Keeps R (end_if_last r by at)
  unfolding end_if_last
  end_if_last-Keeps r by at = search (keeps_rules, pre, decide, close, tt) depth 9

  pub withdraw-Keeps : (id actor_id : ℕ) → Keeps R (withdraw env id actor_id)
  unfolding withdraw
  withdraw-Keeps id actor_id =
      search
        (
          keeps_rules,
          pre,
          get-Keeps env pre close,
          required_part-Keeps,
          withdraw_requester,
          end_if_last-Keeps,
          after_decision-Keeps env pre close,
        )
        depth 18

  pub mine-Keeps : (actor_id limit : ℕ) → Keeps R (mine env actor_id limit)
  unfolding mine Queries.of
  mine-Keeps actor_id limit = search (keeps_rules, pre, views-Keeps env pre close) depth 9

  pub one_of_mine-Keeps : (id actor_id : ℕ) → Keeps R (one_of_mine env id actor_id)
  unfolding one_of_mine
  one_of_mine-Keeps id actor_id =
      search
        (keeps_rules, pre, get-Keeps env pre close, required_part-Keeps, view-Keeps env pre close)
        depth 12

  pub listing-Keeps :
      (status : Option RequestStatus) (open_only : Bool) (limit : ℕ)
      → Keeps R (listing env status open_only limit)
  unfolding listing Queries.all_of
  listing-Keeps status open_only limit =
      search (keeps_rules, pre, views-Keeps env pre close) depth 9

  pending_request-Keeps : (id : ℕ) → Keeps R (pending_request id)
  unfolding pending_request
  pending_request-Keeps id = search (keeps_rules, pre, get-Keeps env pre close) depth 9

  add_on_approval-Keeps : (r : SecurityRequest) (by : Text) → Keeps R (add_on_approval env r by)
  unfolding add_on_approval
  add_on_approval-Keeps r by = search (keeps_rules, pre, add) depth 9

  pub approve-Keeps :
      (id : ℕ) (by : Text) (add_to_watchlist : Bool) → Keeps R (approve env id by add_to_watchlist)
  unfolding approve
  approve-Keeps id by add_to_watchlist =
      search
        (
          keeps_rules,
          pre,
          pending_request-Keeps,
          approve_request-Keeps,
          add_on_approval-Keeps,
          after_decision-Keeps env pre close,
        )
        depth 12

  checked_note-Keeps : (remark : Text) → Keeps R (checked_note remark)
  unfolding checked_note
  checked_note-Keeps [] = search keeps_rules
  checked_note-Keeps (c ∷ rest) = search (keeps_rules, pre)

  pub reject-Keeps : (id : ℕ) (by remark : Text) → Keeps R (reject env id by remark)
  unfolding reject
  reject-Keeps id by remark =
      search
        (
          keeps_rules,
          pre,
          checked_note-Keeps,
          pending_request-Keeps,
          decide,
          close,
          after_decision-Keeps env pre close,
          tt,
        )
        depth 16

  pub watch-Keeps : (raw by : Text) (remark : Option Text) → Keeps R (watch env raw by remark)
  unfolding watch
  watch-Keeps raw by remark = search (keeps_rules, pre, add) depth 12

  pub unwatch-Keeps : (raw by : Text) (remark : Option Text) → Keeps R (unwatch env raw by remark)
  unfolding unwatch
  unwatch-Keeps raw by remark = search (keeps_rules, pre, remove) depth 12
