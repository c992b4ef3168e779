-- ===== src/Intake/Examples.antt =====
-- The theorems on the intake at concrete calls: two people ask for one company, and an operator approves.
use info_backend.Prelude.{
  ℕ, suc, Bool, ◌+◌, ◌≤◌, ◌≡◌, ◌≢◌, refl, true, false, ◌&&◌, none, some, List, [], ◌∷◌, ◌==◌, leb,
  codes, All, arith,
}
use info_backend.Intake.Domain.{SecurityRequest, RequestKind, RequestStatus, Progress}
use info_backend.Intake.Unit.{Db, Env}
use info_backend.Intake.Calls.{Call, serve}
use info_backend.Intake.Calls.Call.{submit_for, approve_one, withdraw_from, reject_one}
use info_backend.Intake.History.{History, Continues-refl, serve-History}
use info_backend.Intake.Integrity.{IsSound}
use info_backend.Intake.Soundness.{HasFreshIds, serve-IsSound}
use info_backend.Intake.Domain.{err, ok, request_not_pending, strip, is_final}
use info_backend.Intake.Unit.{Session, traverse, ◌>>=◌}
use info_backend.Intake.Store.{load, row_of}
use info_backend.Intake.Queries.{open_of}
use info_backend.Intake.Views.{my_open_count, views, view}
use info_backend.Intake.Service.{approve, reject, checked_note}
use info_backend.Intake.Decisions.{decision-final}
use info_backend.Intake.Rejection.{rejected_row, reject-eq}
use info_backend.Intake.Counting.{open_count}
use info_backend.Intake.Room.{my_open_count-bounds}
use info_backend.Prelude.{◌⊎◌, ◌++◌, text_eq, starts_with}
use info_backend.SecurityCode.{security_code, market}
use info_backend.CrossApp.{clean_origin}
use info_backend.Intake.Domain.{clean_reason, active_requesters, requester}
use info_backend.Intake.Unit.{or_raise, one_or_none}
use info_backend.Intake.Store.{find_open, join, joined, get, update_row}
use info_backend.Intake.Steps.{code_of, after_decision}
use info_backend.Intake.Submit.{
  submit, submit_checked, open_for, unfinished_only, answer, submit_new, ensure_room,
  create_or_join,
}
use info_backend.Intake.Bounded.{submit-bounded}
use info_backend.SecurityCode.{SecurityCode, Market}
use info_backend.Intake.Watchlist
use info_backend.Intake.Watching.{Logged, add-contains}

abbrev total : List SecurityRequest → ℕ
total [] = 0
total (r ∷ l) = r.request_id + total l

abbrev env : Env
env = record {
  space = λ c. c == 32;
  digit = λ c. leb 48 c && leb c 57;
  known_apps = codes "knowbase" ∷ [];
  max_open = 2;
  registration_enabled = true;
  clock = λ n. 1000 + n;
  db_now = 900;
  new_request_id = λ d. suc (total d.requests);
  new_ingestion_id = λ d. 7;
  others = λ d. d;
  actor_text = λ n. codes "actor";
}

above : (l : List SecurityRequest) (n : ℕ) → total l ≤ n → All (λ x. x.request_id ≢ suc n) l
above [] n h = tt
above (x ∷ l) n h = (λ e. omega (arith, e, h), above l n (omega (arith, h)))

env-HasFreshIds : HasFreshIds env
env-HasFreshIds d = above d.requests (total d.requests) (omega arith)

abbrev ended : SecurityRequest
ended = record {
  request_id = 1;
  security_code = codes "600519";
  kind = RequestKind.initial;
  status = RequestStatus.rejected;
  is_open = false;
  created_at = 10;
  requesters =
      record { actor_id = 5; reason = none; origin = none; requested_at = 10; withdrawn_at = none }
      ∷ [];
  ingestion_id = none;
  decided_by = some (codes "ops");
  decided_at = some 20;
  decision_note = some (codes "no");
  outcome = some Progress.rejected;
  closed_at = some 20;
}

abbrev start : Db
start = record {
  requests = ended ∷ [];
  ingestions = [];
  datasets = [];
  queued = [];
  watchlist = [];
  watchlist_log = [];
}

start-IsSound : IsSound start
start-IsSound = record {
  rows = (record { outcome_iff_closed = refl; time_iff_closed = refl; batch = tt }, tt);
  once = (tt, tt);
  ids = (tt, tt);
}

abbrev calls : List (Env × Call)
calls =
    (env, submit_for (codes "600519") 5 (some (codes "again")) none none)
    ∷ (env, submit_for (codes "600519") 6 none (some (codes "knowbase")) none)
    ∷ (env, approve_one 2 (codes "ops") true)
    ∷ (env, withdraw_from 2 5)
    ∷ (env, reject_one 1 (codes "ops") (codes "late"))
    ∷ []

-- Nothing else is committed between the calls.
lone : (d : Db) → History d d
lone d id row h = (row, h, Continues-refl row)

serve-History_example : History start (serve calls start)
serve-History_example = serve-History calls start (lone, (lone, (lone, (lone, (lone, tt)))))

sound : HasFreshIds env × ((d : Db) → IsSound d → IsSound d)
sound = (env-HasFreshIds, λ d h. h)

serve-IsSound_example : IsSound (serve calls start)
serve-IsSound_example =
    serve-IsSound calls start (sound, (sound, (sound, (sound, (sound, tt))))) start-IsSound

abbrev session : Db → Session
session db = record { db = db; committed = db; tick = 0 }

decision-final_example :
    (approve env 1 (codes "ops") true (session start) ≡ err request_not_pending)
    × (reject env 1 (codes "ops") (codes "no") (session start) ≡ err request_not_pending)
unfolding checked_note strip ◌>>=◌
decision-final_example =
    decision-final env 1 (codes "ops") (codes "no") (codes "no") true start ended (session start)
      refl refl (lone start) refl

abbrev waiting : SecurityRequest
waiting = record ended {
  status = RequestStatus.pending;
  is_open = true;
  decided_by = none;
  decided_at = none;
  decision_note = none;
  outcome = none;
  closed_at = none;
}

abbrev one_waiting : Db
one_waiting = record start { requests = waiting ∷ [] }

reject-eq_example :
    (t : Session) × (reject env 1 (codes "ops") (codes "no") (session one_waiting)
      ≡ ok (
        record {
          request = load (rejected_row (codes "ops") (codes "no") 1000 waiting);
          progress = Progress.rejected;
          dataset = none;
        },
        t,
      ))
    × (row_of 1 t.committed ≡ some (rejected_row (codes "ops") (codes "no") 1000 waiting))
unfolding checked_note strip ◌>>=◌
reject-eq_example =
    reject-eq env 1 (codes "ops") (codes "no") (codes "no") (session one_waiting) waiting refl refl
      refl refl

one_waiting-IsSound : IsSound one_waiting
one_waiting-IsSound = record {
  rows = (record { outcome_iff_closed = refl; time_iff_closed = refl; batch = tt }, tt);
  once = (tt, tt);
  ids = (tt, tt);
}

my_open_count-bounds_example : open_count 5 one_waiting ≤ 1
unfolding my_open_count open_of views traverse view load is_final ◌>>=◌
my_open_count-bounds_example =
    my_open_count-bounds env 5 1 (session one_waiting) (session one_waiting) one_waiting-IsSound
      refl

-- A second person joins the request that waits.
abbrev joining : Session
joining = session (record one_waiting {
  requests =
      record waiting {
        requesters =
            waiting.requesters
            ++ record {
              actor_id = 6;
              reason = none;
              origin = none;
              requested_at = 1000;
              withdrawn_at = none;
            }
              ∷ [];
      }
      ∷ [];
})

abbrev joined_session : Session
joined_session = record joining { tick = 1 }

submit-bounded_example :
    (open_count 6 joined_session.db ≤ 2)
    ⊎ (open_count 6 joined_session.db ≤ open_count 6 one_waiting)
unfolding submit code_of security_code market submit_checked open_for find_open unfinished_only view
    answer submit_new ensure_room my_open_count open_of views traverse create_or_join join joined
    after_decision get load clean_reason clean_origin text_eq starts_with is_final or_raise
    one_or_none active_requesters requester update_row ◌>>=◌
submit-bounded_example =
    submit-bounded env (codes "600519") 6 none none none (session one_waiting) joined_session
      (record {
        request = load (record waiting {
          requesters =
              waiting.requesters
              ++ record {
                actor_id = 6;
                reason = none;
                origin = none;
                requested_at = 1000;
                withdrawn_at = none;
              }
                ∷ [];
        });
        progress = Progress.pending;
        dataset = none;
      })
      env-HasFreshIds (λ d h. (h, omega arith)) one_waiting-IsSound refl

abbrev moutai : SecurityCode
moutai = record { code = codes "600519"; market = Market.shanghai }

add-contains_example :
    (b : Bool) × (t : Session) × (Watchlist.add moutai (codes "ops") none 5 (session start)
      ≡ ok (b, t))
    × (Watchlist.contains moutai t ≡ ok (true, t))
    × Logged b (session start) t
add-contains_example = add-contains moutai (codes "ops") none 5 (session start)
