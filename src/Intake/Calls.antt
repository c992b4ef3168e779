-- ===== src/Intake/Calls.antt =====
-- Calls of the service one after another, each in its own unit of work, and each with the
-- environment that it meets: its clock, and what other transactions do.
use info_backend.Prelude.{ℕ, Bool, Option, List, [], ◌∷◌, All, Text}
use info_backend.Intake.Domain.{RequestStatus}
use info_backend.Intake.Unit.{Db, Env, transact}
use info_backend.Intake.Keeps.{IsPreorder, Keeps-transact}
use info_backend.Intake.Submit.{submit, availability}
use info_backend.Intake.Service.{
  withdraw, mine, one_of_mine, listing, approve, reject, watch, unwatch,
}
use info_backend.Intake.Stable.{IsStable}
use info_backend.Intake.Operations.{
  submit-Keeps, availability-Keeps, withdraw-Keeps, mine-Keeps, one_of_mine-Keeps, listing-Keeps,
  approve-Keeps, reject-Keeps, watch-Keeps, unwatch-Keeps,
}

pub data Call : Type 0 where
  availability_of : (raw_code : Text) (actor_id : ℕ) → Call
  submit_for : (raw_code : Text) (actor_id : ℕ) (reason app ref : Option Text) → Call
  withdraw_from : (request_id actor_id : ℕ) → Call
  list_mine : (actor_id limit : ℕ) → Call
  show_mine : (request_id actor_id : ℕ) → Call
  list_all : (status : Option RequestStatus) (open_only : Bool) (limit : ℕ) → Call
  approve_one : (request_id : ℕ) (by : Text) (add_to_watchlist : Bool) → Call
  reject_one : (request_id : ℕ) (by note : Text) → Call
  watch_code : (raw_code by : Text) (note : Option Text) → Call
  unwatch_code : (raw_code by : Text) (note : Option Text) → Call

-- The tables that others see after the call, whatever it answers.
unfoldable pub call : Env → Call → Db → Db
call env (availability_of raw actor_id) db = (transact (availability env raw actor_id) db).1
call env (submit_for raw actor_id reason app ref) db =
    (transact (submit env raw actor_id reason app ref) db).1
call env (withdraw_from id actor_id) db = (transact (withdraw env id actor_id) db).1
call env (list_mine actor_id limit) db = (transact (mine env actor_id limit) db).1
call env (show_mine id actor_id) db = (transact (one_of_mine env id actor_id) db).1
call env (list_all status open_only limit) db = (transact (listing env status open_only limit) db).1
call env (approve_one id by add_to_watchlist) db =
    (transact (approve env id by add_to_watchlist) db).1
call env (reject_one id by note) db = (transact (reject env id by note) db).1
call env (watch_code raw by note) db = (transact (watch env raw by note) db).1
call env (unwatch_code raw by note) db = (transact (unwatch env raw by note) db).1

unfoldable pub serve : List (Env × Call) → Db → Db
serve [] db = db
serve ((env, c) ∷ rest) db = serve rest (call env c db)

module _ {R : Db → Db → Type 0} where
  pub call-stable : (env : Env) → IsStable env R → (c : Call) (db : Db) → R db (call env c db)
  unfolding call
  call-stable env s (availability_of raw actor_id) db =
      Keeps-transact s.pre _ (availability-Keeps env s raw actor_id) db
  call-stable env s (submit_for raw actor_id reason app ref) db =
      Keeps-transact s.pre _ (submit-Keeps env s raw actor_id reason app ref) db
  call-stable env s (withdraw_from id actor_id) db =
      Keeps-transact s.pre _ (withdraw-Keeps env s id actor_id) db
  call-stable env s (list_mine actor_id limit) db =
      Keeps-transact s.pre _ (mine-Keeps env s actor_id limit) db
  call-stable env s (show_mine id actor_id) db =
      Keeps-transact s.pre _ (one_of_mine-Keeps env s id actor_id) db
  call-stable env s (list_all status open_only limit) db =
      Keeps-transact s.pre _ (listing-Keeps env s status open_only limit) db
  call-stable env s (approve_one id by add_to_watchlist) db =
      Keeps-transact s.pre _ (approve-Keeps env s id by add_to_watchlist) db
  call-stable env s (reject_one id by note) db =
      Keeps-transact s.pre _ (reject-Keeps env s id by note) db
  call-stable env s (watch_code raw by note) db =
      Keeps-transact s.pre _ (watch-Keeps env s raw by note) db
  call-stable env s (unwatch_code raw by note) db =
      Keeps-transact s.pre _ (unwatch-Keeps env s raw by note) db

  pub serve-stable :
      IsPreorder R
      → (calls : List (Env × Call)) (db : Db) → All (λ c. IsStable c.0 R) calls
      → R db (serve calls db)
  unfolding serve
  serve-stable pre [] db h = pre.same db
  serve-stable pre ((env, c) ∷ rest) db h =
      pre.chain db (call env c db) (serve rest (call env c db)) (call-stable env h.0 c db)
        (serve-stable pre rest (call env c db) h.1)
