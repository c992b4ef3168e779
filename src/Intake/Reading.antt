-- ===== src/Intake/Reading.antt =====
-- A relation that `close` respects is respected by what the service does beside it.
use info_backend.Prelude.{ℕ, Option, none, some, List}
use info_backend.SecurityCode.{SecurityCode}
use info_backend.Intake.Domain.{SecurityRequest, Progress}
use info_backend.Intake.Unit.{Db, Env}
use info_backend.Intake.Keeps.{IsPreorder, Keeps, Keeps-traverse, keeps_rules}
use info_backend.Intake.Store
use info_backend.Intake.Store.{NewRequester, must, get, find_open}
use info_backend.Intake.Queries
use info_backend.Intake.Steps.{after_decision}
use info_backend.Intake.Submit.{unfinished_only, open_for, ensure_room}
use info_backend.Intake.Watchlist
use info_backend.Intake.Views.{
  dataset_of_id, ingestion_of_id, view_ended, record_end, view_approved, view, views, my_open_count,
}

-- What only reads, and closes what has ended.
module _ (env : Env) {R : Db → Db → Type 0} (pre : IsPreorder R)
    (close : (id : ℕ) (outcome : Progress) (at : ℕ) → Keeps R (Store.close id outcome at)) where
  pub get-Keeps : (id : ℕ) → Keeps R (get id)
  unfolding get
  get-Keeps id = search (keeps_rules, pre)

  pub find_open-Keeps : (code : SecurityCode) → Keeps R (find_open code)
  unfolding find_open
  find_open-Keeps code = search (keeps_rules, pre)

  pub open_of-Keeps : (actor_id : ℕ) → Keeps R (Queries.open_of actor_id)
  unfolding Queries.open_of
  open_of-Keeps actor_id = search (keeps_rules, pre)

  pub ingestion_of_id-Keeps : (id : Option ℕ) → Keeps R (ingestion_of_id id)
  unfolding ingestion_of_id Queries.ingestion_state
  ingestion_of_id-Keeps none = search (keeps_rules, pre)
  ingestion_of_id-Keeps (some id) = search (keeps_rules, pre)

  pub dataset_of_id-Keeps : (id : Option ℕ) → Keeps R (dataset_of_id id)
  unfolding dataset_of_id Queries.dataset_of
  dataset_of_id-Keeps none = search (keeps_rules, pre)
  dataset_of_id-Keeps (some id) = search (keeps_rules, pre)

  pub latest_published-Keeps : (code : SecurityCode) → Keeps R (Queries.latest_published code)
  unfolding Queries.latest_published
  latest_published-Keeps code = search (keeps_rules, pre)

  pub contains-Keeps : (code : SecurityCode) → Keeps R (Watchlist.contains code)
  unfolding Watchlist.contains
  contains-Keeps code = search (keeps_rules, pre)

  pub record_end-Keeps : (r : SecurityRequest) (p : Progress) → Keeps R (record_end env r p)
  unfolding record_end
  record_end-Keeps r p = search (keeps_rules, pre, close)

  pub view_ended-Keeps : (r : SecurityRequest) → Keeps R (view_ended r)
  unfolding view_ended
  view_ended-Keeps r = search (keeps_rules, pre, dataset_of_id-Keeps)

  pub view_approved-Keeps : (r : SecurityRequest) → Keeps R (view_approved env r)
  unfolding view_approved
  view_approved-Keeps r =
      search (keeps_rules, pre, dataset_of_id-Keeps, ingestion_of_id-Keeps, record_end-Keeps) depth
        9

  pub view-Keeps : (r : SecurityRequest) → Keeps R (view env r)
  unfolding view
  view-Keeps r = search (keeps_rules, pre, view_ended-Keeps, view_approved-Keeps)

  pub views-Keeps : (l : List SecurityRequest) → Keeps R (views env l)
  unfolding views
  views-Keeps l = Keeps-traverse pre (view env) l view-Keeps

  pub my_open_count-Keeps : (actor_id : ℕ) → Keeps R (my_open_count env actor_id)
  unfolding my_open_count
  my_open_count-Keeps actor_id = search (keeps_rules, pre, open_of-Keeps, views-Keeps)

  pub after_decision-Keeps : (id : ℕ) → Keeps R (after_decision env id)
  unfolding after_decision
  after_decision-Keeps id = search (keeps_rules, pre, get-Keeps, view-Keeps) depth 9

  pub unfinished_only-Keeps : (o : Option SecurityRequest) → Keeps R (unfinished_only env o)
  unfolding unfinished_only
  unfinished_only-Keeps none = search (keeps_rules, pre)
  unfinished_only-Keeps (some r) = search (keeps_rules, pre, view-Keeps)

  pub open_for-Keeps : (code : SecurityCode) → Keeps R (open_for env code)
  unfolding open_for
  open_for-Keeps code = search (keeps_rules, pre, find_open-Keeps, unfinished_only-Keeps)

  pub ensure_room-Keeps : (actor_id : ℕ) → Keeps R (ensure_room env actor_id)
  unfolding ensure_room
  ensure_room-Keeps actor_id = search (keeps_rules, pre, my_open_count-Keeps)
