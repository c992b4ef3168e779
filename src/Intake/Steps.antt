-- ===== src/Intake/Steps.antt =====
-- Steps that the operations of `SecurityRequestService` share
-- (app/app/application/securities/request_service.py).
use info_backend.Prelude.{ℕ, none, some, Text}
use info_backend.SecurityCode.{SecurityCode, security_code}
use info_backend.Intake.Domain.{
  RequestStatus, SecurityRequest, security_code_invalid, assertion_failed, invalid_security_code,
}
use info_backend.Intake.Unit.{Env, M, pure, read_clock, commit, or_raise, ◌>>=◌, ◌>>◌}
use info_backend.Intake.Store.{get, decide}
use info_backend.Intake.Queries.{start_ingestion}
use info_backend.Intake.Views.{RequestView, view}

-- `_code`
unfoldable pub code_of : Env → Text → M SecurityCode
code_of env raw = or_raise security_code_invalid (security_code env.digit raw)

-- `SecurityCode(request.security_code)`
unfoldable pub stored_code : Env → SecurityRequest → M SecurityCode
stored_code env request =
    or_raise invalid_security_code (security_code env.digit request.security_code)

-- `fresh = await get(…)`, the assertion, the view and the commit; `_after_decision` is just this
unfoldable pub after_decision : Env → ℕ → M RequestView
after_decision env request_id = do
  found ← get request_id
  fresh ← or_raise assertion_failed found
  v ← view env fresh
  commit
  pure v

-- `_approve`
unfoldable pub approve_request : Env → SecurityRequest → Text → M (Unit {0})
unfolding stored_code
approve_request env request by = do
  code ← stored_code env request
  ingestion_id ← start_ingestion env code
  at ← read_clock env
  decide request.request_id RequestStatus.approved by at none (some ingestion_id)
