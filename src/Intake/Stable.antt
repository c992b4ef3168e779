-- ===== src/Intake/Stable.antt =====
-- What a relation between tables must respect to be respected by every operation of the service.
use info_backend.Prelude.{ℕ, Option, none, Text}
use info_backend.SecurityCode.{SecurityCode}
use info_backend.Intake.Domain.{RequestKind, RequestStatus, Progress}
use info_backend.Intake.Unit.{Db, Env}
use info_backend.Intake.Keeps.{IsPreorder, Keeps}
use info_backend.Intake.Store
use info_backend.Intake.Store.{NewRequester}
use info_backend.Intake.Queries
use info_backend.Intake.Watchlist

-- An approval names its batch.
abbrev pub HasBatch : RequestStatus → Option ℕ → Type 0
HasBatch RequestStatus.approved none = ⊥
HasBatch _ _ = Unit

pub record IsStable (env : Env) (R : Db → Db → Type 0) : Type 0 where
  pub pre : IsPreorder R
  pub others : (d : Db) → R d (env.others d)
  pub create :
      (code : SecurityCode) (kind : RequestKind) (new : NewRequester)
      → Keeps R (Store.create env code kind new)
  pub join : (id : ℕ) (new : NewRequester) → Keeps R (Store.join id new)
  pub withdraw_requester : (id actor_id at : ℕ) → Keeps R (Store.withdraw_requester id actor_id at)
  pub decide :
      (id : ℕ) (status : RequestStatus) (by : Text) (at : ℕ) (note : Option Text) (batch : Option ℕ)
      → HasBatch status batch
      → Keeps R (Store.decide id status by at note batch)
  pub close : (id : ℕ) (outcome : Progress) (at : ℕ) → Keeps R (Store.close id outcome at)
  pub start_ingestion : (code : SecurityCode) → Keeps R (Queries.start_ingestion env code)
  pub add :
      (code : SecurityCode) (by : Text) (note : Option Text) (at : ℕ)
      → Keeps R (Watchlist.add code by note at)
  pub remove :
      (code : SecurityCode) (by : Text) (note : Option Text) (at : ℕ)
      → Keeps R (Watchlist.remove code by note at)
