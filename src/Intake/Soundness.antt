-- ===== src/Intake/Soundness.antt =====
-- The insertion of a request keeps the constraints, and so do all calls of the service.
use info_backend.Prelude.{
  ℕ, ◌≡◌, ◌≢◌, refl, false, inl, inr, Option, List, [], ◌∷◌, ◌++◌, Text, text_eq_iff, arith, All,
  any, Bool-cases,
}
use info_backend.SecurityCode.{SecurityCode}
use info_backend.Intake.Domain.{SecurityRequest, RequestKind}
use info_backend.Intake.Unit.{Db, Env, ◌>>=◌}
use info_backend.Intake.Keeps.{Keeps, Keeps-modify, keeps_rules}
use info_backend.Intake.Store.{NewRequester, is_open_for, new_row, with_requester, create}
use info_backend.Intake.Queries.{start_ingestion}
use info_backend.Intake.Watchlist
use info_backend.Intake.Watchlist.{listed_again}
use info_backend.Intake.Stable.{IsStable}
use info_backend.Intake.Calls.{Call, serve, serve-stable}
use info_backend.Intake.History.{listed_again-requests}
use info_backend.Intake.Integrity.{
  IsSoundRow, UniqueIds, DiffersFrom, OpenOnce, IsSound, Preserves, Preserves-preorder,
  join-Preserves, withdraw_requester-Preserves, decide-Preserves, close-Preserves,
}

All-snoc :
    (P : SecurityRequest → Type 0) (rows : List SecurityRequest) (row : SecurityRequest)
    → All P rows
    → P row
    → All P (rows ++ row ∷ [])
All-snoc P [] row h p = (p, tt)
All-snoc P (x ∷ rows) row h p = (h.0, All-snoc P rows row h.1 p)

OpenOnce-snoc :
    (rows : List SecurityRequest) (row : SecurityRequest)
    → OpenOnce rows
    → All (λ x. DiffersFrom x row) rows
    → OpenOnce (rows ++ row ∷ [])
OpenOnce-snoc [] row h d = (tt, tt)
OpenOnce-snoc (x ∷ rows) row h d = (All-snoc _ rows row h.0 d.0, OpenOnce-snoc rows row h.1 d.1)

none_open :
    (rows : List SecurityRequest) (row : SecurityRequest)
    → any (is_open_for row.security_code) rows ≡ false
    → All (λ x. DiffersFrom x row) rows
none_open [] row e = tt
none_open (x ∷ rows) row e = (
  λ p q same. ground (arith, text_eq_iff x.security_code row.security_code),
  none_open rows row (ground arith),
)

UniqueIds-snoc :
    (rows : List SecurityRequest) (row : SecurityRequest)
    → UniqueIds rows
    → All (λ x. x.request_id ≢ row.request_id) rows
    → UniqueIds (rows ++ row ∷ [])
UniqueIds-snoc [] row h d = (tt, tt)
UniqueIds-snoc (x ∷ rows) row h d = (All-snoc _ rows row h.0 d.0, UniqueIds-snoc rows row h.1 d.1)

-- The generator of ids gives none that is taken.
abbrev pub HasFreshIds : Env → Type 0
HasFreshIds env = (d : Db) → All (λ x. x.request_id ≢ env.new_request_id d) d.requests

append-Preserves :
    (row : SecurityRequest) (d : Db)
    → All (λ x. x.request_id ≢ row.request_id) d.requests
    → IsSoundRow row
    → any (is_open_for row.security_code) d.requests ≡ false
    → Preserves d (record d { requests = d.requests ++ row ∷ [] })
append-Preserves row d fresh s e h = record {
  rows = All-snoc _ d.requests row h.rows s;
  once = OpenOnce-snoc d.requests row h.once (none_open d.requests row e);
  ids = UniqueIds-snoc d.requests row h.ids fresh;
}

pub create-Preserves :
    (env : Env)
    → HasFreshIds env
    → (code : SecurityCode) (kind : RequestKind) (new : NewRequester)
    → Keeps Preserves (create env code kind new)
unfolding create ◌>>=◌
create-Preserves env fresh code kind new = record {
  at = λ s. elim (Bool-cases (any (is_open_for code.code) s.db.requests)) [
    | inl e ↦ rw e tt
    | inr e ↦ rw e (
      append-Preserves (with_requester new (new_row env code kind s.db)) s.db (fresh s.db)
          (record { outcome_iff_closed = refl; time_iff_closed = refl; batch = tt }) e,
      inl refl,
    )
  ];
}

-- A write that leaves the requests as they are.
pub same-Preserves :
    (f : Db → Db) → ((d : Db) → (f d).requests ≡ d.requests) → (d : Db) → Preserves d (f d)
same-Preserves f e d h = record {
  rows = rw (e d) h.rows;
  once = rw (e d) h.once;
  ids = rw (e d) h.ids;
}

ruleset writes =
    (Preserves-preorder, keeps_rules, Keeps-modify, same-Preserves, listed_again-requests)

pub start_ingestion-Preserves :
    (env : Env) (code : SecurityCode) → Keeps Preserves (start_ingestion env code)
unfolding start_ingestion
start_ingestion-Preserves env code = search writes depth 9

add-Preserves :
    (code : SecurityCode) (by : Text) (remark : Option Text) (at : ℕ)
    → Keeps Preserves (Watchlist.add code by remark at)
unfolding Watchlist.add
add-Preserves code by remark at = search writes depth 9

remove-Preserves :
    (code : SecurityCode) (by : Text) (remark : Option Text) (at : ℕ)
    → Keeps Preserves (Watchlist.remove code by remark at)
unfolding Watchlist.remove
remove-Preserves code by remark at = search writes depth 9

pub Preserves-stable :
    (env : Env) → HasFreshIds env → ((d : Db) → Preserves d (env.others d)) → IsStable env Preserves
Preserves-stable env fresh others = record {
  pre = Preserves-preorder;
  others = others;
  create = create-Preserves env fresh;
  join = join-Preserves;
  withdraw_requester = withdraw_requester-Preserves;
  decide = decide-Preserves;
  close = close-Preserves;
  start_ingestion = start_ingestion-Preserves env;
  add = add-Preserves;
  remove = remove-Preserves;
}

-- Whatever calls are made, failing or not, the tables keep the constraints of the database: a request
-- has an outcome and a time of closing exactly when it is closed, an approved one names its batch, and
-- a company has at most one open request and no id stands twice, provided that new ids are fresh and
-- that the other transactions keep the constraints too.
pub serve-IsSound :
    (calls : List (Env × Call)) (db : Db)
    → All (λ c. HasFreshIds c.0 × ((d : Db) → IsSound d → IsSound (c.0.others d))) calls
    → IsSound db
    → IsSound (serve calls db)
serve-IsSound calls db h = serve-stable Preserves-preorder calls db (stable calls h)
  where
    stable :
        (calls : List (Env × Call))
        → All (λ c. HasFreshIds c.0 × ((d : Db) → Preserves d (c.0.others d))) calls
        → All (λ c. IsStable c.0 Preserves) calls
    stable [] h = tt
    stable (c ∷ rest) h = (Preserves-stable c.0 h.0.0 h.0.1, stable rest h.1)
