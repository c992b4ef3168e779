-- ===== src/Intake/Unit.antt =====
-- The unit of work: the tables that the intake of requests reads and writes, and one database
-- session over them. An exception abandons the session, so an action that fails has no end state.
use info_backend.Prelude.{ℕ, suc, Bool, Option, none, some, List, [], ◌∷◌, Text}
use info_backend.Intake.Domain.{
  SecurityRequest, IngestionState, DatasetState, Error, Result, ok, err, multiple_results_found,
  open_request_exists,
}

-- A row of `security_ingestion`, as far as the intake reads it.
pub record IngestionRow : Type 0 where
  pub id : ℕ
  pub security_code : Text
  pub state : IngestionState

-- A row of `security_dataset`, as far as the intake reads it.
pub record DatasetRow : Type 0 where
  pub ingestion_id : ℕ
  pub security_code : Text
  pub built_at : ℕ
  pub state : DatasetState

pub record WatchRow : Type 0 where
  pub security_code : Text
  pub added_at : ℕ
  pub added_by : Text
  pub note : Option Text
  pub removed_at : Option ℕ
  pub removed_by : Option Text
  pub removal_note : Option Text

pub data Action : Type 0 where
  add remove : Action

pub record LogRow : Type 0 where
  pub security_code : Text
  pub action : Action
  pub actor : Text
  pub note : Option Text
  pub at : ℕ

-- A row of `security_request` holds its rows of `security_request_requester`. `queued` holds the
-- ingestions for which a delivery was enqueued.
pub record Db : Type 0 where
  pub requests : List SecurityRequest
  pub ingestions : List IngestionRow
  pub datasets : List DatasetRow
  pub queued : List ℕ
  pub watchlist : List WatchRow
  pub watchlist_log : List LogRow

-- `tick` counts the readings of the service's clock.
pub record Session : Type 0 where
  pub db : Db
  pub committed : Db
  pub tick : ℕ

-- What the service and the store are built from. `others` is what other transactions commit
-- between the search for an open request and the insertion of a new one. `actor_text` writes the UUID
-- of a person.
pub record Env : Type 0 where
  pub space : ℕ → Bool
  pub digit : ℕ → Bool
  pub known_apps : List Text
  pub max_open : ℕ
  pub registration_enabled : Bool
  pub clock : ℕ → ℕ
  pub db_now : ℕ
  pub new_request_id : Db → ℕ
  pub new_ingestion_id : Db → ℕ
  pub others : Db → Db
  pub actor_text : ℕ → Text

abbrev pub M : Type 0 → Type 0
M A = Session → Result (A × Session)

module _ {A : Type 0} where
  pub pure : A → M A
  pure a s = ok (a, s)

  pub raise : Error → M A
  raise e s = err e

  pub lift : Result A → M A
  lift (ok a) s = ok (a, s)
  lift (err e) s = err e

  pub gets : (Db → A) → M A
  gets f s = ok (f s.db, s)

  -- `scalar_one_or_none`
  unfoldable pub one_or_none : List A → Result (Option A)
  one_or_none [] = ok none
  one_or_none (x ∷ []) = ok (some x)
  one_or_none (x ∷ y ∷ l) = err multiple_results_found

pub modify : (Db → Db) → M (Unit {0})
modify f s = ok (tt, record s { db = f s.db })

-- `self._clock()`
pub read_clock : Env → M ℕ
read_clock env s = ok (env.clock s.tick, record s { tick = suc s.tick })

pub commit : M (Unit {0})
commit s = ok (tt, record s { committed = s.db })

module _ {A B : Type 0} where
  abbrev pub continue : Result (A × Session) → (A → M B) → Result (B × Session)
  continue (ok (a, s)) f = f a s
  continue (err e) f = err e

  infixl 5 ◌>>=◌ ◌>>◌
  -- Opening this opens the actions above too.
  unfoldable pub ◌>>=◌ : M A → (A → M B) → M B
  unfolding pure raise lift gets modify read_clock commit one_or_none
  ◌>>=◌ m f s = continue (m s) f

  abbrev pub ◌>>◌ : M A → M B → M B
  m >> n = m >>= λ _. n

module _ {A B : Type 0} where
  -- a list comprehension over an action
  unfoldable pub traverse : (A → M B) → List A → M (List B)
  unfolding ◌>>=◌
  traverse f [] = pure []
  traverse f (x ∷ xs) = f x >>= λ y. traverse f xs >>= λ ys. pure (y ∷ ys)

module _ {A : Type 0} where
  -- `try: body` / `except OpenRequestExists: handler`; the savepoint leaves the session as it was
  -- before the insertion.
  unfoldable pub or_on_conflict : M A → M A → M A
  or_on_conflict body handler s = elim (body s) [
    | ok r ↦ ok r
    | err open_request_exists ↦ handler s
    | err e ↦ err e
  ]

  unfoldable pub or_raise : Error → Option A → M A
  unfolding raise pure
  or_raise e none = raise e
  or_raise e (some a) = pure a

  abbrev pub finish : Db → Result (A × Session) → Result A × Db
  finish db (ok (a, s)) = (ok a, s.committed)
  finish db (err e) = (err e, db)

  -- One call of the service on a fresh session: its answer, and the tables that others then see.
  unfoldable pub transact : M A → Db → Result A × Db
  transact m db = finish db (m (record { db = db; committed = db; tick = 0 }))
