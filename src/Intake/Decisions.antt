-- ===== src/Intake/Decisions.antt =====
-- Decisions on requests: a request that has ended takes no further decision, and what a rejection does.
use info_backend.Prelude.{ℕ, ◌≡◌, refl, Bool, false, some, Text}
use info_backend.Intake.Domain.{SecurityRequest, ok, err, request_not_pending, strip}
use info_backend.Intake.Unit.{Db, Session, Env, ◌>>=◌, or_raise}
use info_backend.Intake.Store.{row_of, get, load}
use info_backend.Intake.Service.{pending_request, approve, reject, checked_note}
use info_backend.Intake.History.{History}

-- Where the row is closed, `_pending` refuses it.
pending_request-closed :
    (id : ℕ) (row : SecurityRequest) (s : Session)
    → row_of id s.db ≡ some row
    → row.is_open ≡ false
    → pending_request id s ≡ err request_not_pending
unfolding pending_request get load or_raise ◌>>=◌
pending_request-closed id row s h c = rw h (rw c refl)

-- A request that has ended is never decided again: in every later state, an approval and a rejection with
-- a note that passes its check are both refused as `request_not_pending`.
pub decision-final :
    (env : Env) (id : ℕ) (by note reason : Text) (add : Bool) (before : Db) (row : SecurityRequest)
    (s : Session)
    → row_of id before ≡ some row
    → row.is_open ≡ false
    → History before s.db
    → checked_note (strip env.space note) s ≡ ok (reason, s)
    → (approve env id by add s ≡ err request_not_pending)
      × (reject env id by note s ≡ err request_not_pending)
unfolding approve reject ◌>>=◌
decision-final env id by note reason add before row s h c later good =
    let (row', h', k) = later id row h in
    let refused = pending_request-closed id row' s h' (k.stays_closed c) in
    (rw refused refl, rw good (rw refused refl))
