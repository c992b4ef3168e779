-- ===== src/Intake/History.antt =====
-- No operation of the service loses a request, or changes what a request has ended with.
use info_backend.Prelude.{
  ℕ, ◌≡◌, refl, Bool, true, false, Option, none, some, List, [], ◌∷◌, ◌++◌, Text, arith, All, ◌==◌,
  if◌then◌else◌,
}
use info_backend.SecurityCode.{SecurityCode}
use info_backend.Intake.Domain.{SecurityRequest, RequestKind, RequestStatus, Progress}
use info_backend.Intake.Unit.{Db, Env, WatchRow}
use info_backend.Intake.Keeps.{IsPreorder, Keeps, Keeps-modify, keeps_rules}
use info_backend.Intake.Store.{
  NewRequester, row_of, update_row, must, create, joined, join, left, withdraw_requester, decided,
  decide, closed, close,
}
use info_backend.Intake.Queries.{start_ingestion}
use info_backend.Intake.Watchlist
use info_backend.Intake.Watchlist.{listed_again}
use info_backend.Intake.Stable.{IsStable}
use info_backend.Intake.Calls.{Call, serve, serve-stable}
use info_backend.Intake.Rows.{find?-append, find?-update}

-- `after` is a later version of the row `before`.
pub record Continues (before after : SecurityRequest) : Type 0 where
  pub same_code : after.security_code ≡ before.security_code
  pub same_kind : after.kind ≡ before.kind
  pub same_creation : after.created_at ≡ before.created_at
  pub stays_closed : before.is_open ≡ false → after.is_open ≡ false
  pub same_outcome : before.is_open ≡ false → after.outcome ≡ before.outcome
  pub same_close : before.is_open ≡ false → after.closed_at ≡ before.closed_at

abbrev pub History : Db → Db → Type 0
History d e =
    (id : ℕ) (row : SecurityRequest)
    → row_of id d ≡ some row
    → (row' : SecurityRequest) × (row_of id e ≡ some row') × Continues row row'

pub Continues-refl : (row : SecurityRequest) → Continues row row
Continues-refl row = ground arith

Continues-trans : (a b c : SecurityRequest) → Continues a b → Continues b c → Continues a c
Continues-trans a b c p q = ground arith

pub History-preorder : IsPreorder History
History-preorder = record {
  same = λ d id row h. (row, h, Continues-refl row);
  chain = λ d e f p q id row h.
      let (row', h', c) = p id row h in
      let (row'', h'', c') = q id row' h' in (row'', h'', Continues-trans row row' row'' c c');
}

-- What the writes of the store do to one row.
pub record IsWrite (f : SecurityRequest → SecurityRequest) : Type 0 where
  pub same_id : (r : SecurityRequest) → (f r).request_id ≡ r.request_id
  pub continues : (r : SecurityRequest) → Continues r (f r)

Continues-if :
    (b : Bool) (f : SecurityRequest → SecurityRequest) (r : SecurityRequest)
    → IsWrite f
    → Continues r (if b then f r else r)
Continues-if true f r w = w.continues r
Continues-if false f r w = Continues-refl r

update_row-History :
    (id : ℕ) (f : SecurityRequest → SecurityRequest)
    → IsWrite f
    → (d : Db) → History d (update_row id f d)
unfolding update_row
update_row-History id f w d j row h = (
  if j == id then f row else row,
  find?-update j id f d.requests w.same_id h,
  Continues-if (j == id) f row w,
)

pub joined-IsWrite : (new : NewRequester) → IsWrite (joined new)
unfolding joined
joined-IsWrite new = record { same_id = λ r. ground arith; continues = λ r. ground arith }

pub left-IsWrite : (actor_id at : ℕ) → IsWrite (left actor_id at)
unfolding left
left-IsWrite actor_id at = record { same_id = λ r. refl; continues = λ r. ground arith }

pub decided-IsWrite :
    (status : RequestStatus) (by : Text) (at : ℕ) (remark : Option Text) (ingestion : Option ℕ)
    → IsWrite (decided status by at remark ingestion)
unfolding decided
decided-IsWrite status by at remark ingestion = record {
  same_id = λ r. refl;
  continues = λ r. ground arith;
}

pub closed-IsWrite : (outcome : Progress) (at : ℕ) → IsWrite (closed outcome at)
unfolding closed
closed-IsWrite outcome at = record { same_id = λ r. ground arith; continues = λ r. ground arith }

ruleset writes = (
  History-preorder, keeps_rules, Keeps-modify, update_row-History, joined-IsWrite, left-IsWrite,
  decided-IsWrite, closed-IsWrite,
)

must-History : (id : ℕ) → Keeps History (must id)
unfolding must
must-History id = search writes

join-History : (id : ℕ) (new : NewRequester) → Keeps History (join id new)
unfolding join
join-History id new = search writes

withdraw_requester-History :
    (id actor_id at : ℕ) → Keeps History (withdraw_requester id actor_id at)
unfolding withdraw_requester
withdraw_requester-History id actor_id at = search writes depth 8

decide-History :
    (id : ℕ) (status : RequestStatus) (by : Text) (at : ℕ) (remark : Option Text)
    (ingestion : Option ℕ)
    → Keeps History (decide id status by at remark ingestion)
unfolding decide
decide-History id status by at remark ingestion = search writes depth 8

close-History : (id : ℕ) (outcome : Progress) (at : ℕ) → Keeps History (close id outcome at)
unfolding close
close-History id outcome at = search writes depth 8

-- A write that leaves the requests as they are.
same-History : (f : Db → Db) → ((d : Db) → (f d).requests ≡ d.requests) → (d : Db) → History d (f d)
same-History f e d id row h = (row, rw (e d) h, Continues-refl row)

append-History :
    (row : SecurityRequest) (d : Db) → History d (record d { requests = d.requests ++ row ∷ [] })
append-History new d id row h = (row, find?-append id d.requests (new ∷ []) h, Continues-refl row)

create-History :
    (env : Env) (code : SecurityCode) (kind : RequestKind) (new : NewRequester)
    → Keeps History (create env code kind new)
unfolding create
create-History env code kind new = search (writes, append-History) depth 9

start_ingestion-History :
    (env : Env) (code : SecurityCode) → Keeps History (start_ingestion env code)
unfolding start_ingestion
start_ingestion-History env code = search (writes, same-History) depth 9

pub listed_again-requests :
    (old : Option WatchRow) (code : SecurityCode) (by : Text) (remark : Option Text) (at : ℕ)
    (d : Db)
    → (listed_again old code by remark at d).requests ≡ d.requests
unfolding listed_again
listed_again-requests none code by remark at d = refl
listed_again-requests (some old) code by remark at d = refl

add-History :
    (code : SecurityCode) (by : Text) (remark : Option Text) (at : ℕ)
    → Keeps History (Watchlist.add code by remark at)
unfolding Watchlist.add
add-History code by remark at = search (writes, same-History, listed_again-requests) depth 9

remove-History :
    (code : SecurityCode) (by : Text) (remark : Option Text) (at : ℕ)
    → Keeps History (Watchlist.remove code by remark at)
unfolding Watchlist.remove
remove-History code by remark at = search (writes, same-History) depth 9

pub History-stable : (env : Env) → ((d : Db) → History d (env.others d)) → IsStable env History
History-stable env others = record {
  pre = History-preorder;
  others = others;
  create = create-History env;
  join = join-History;
  withdraw_requester = withdraw_requester-History;
  decide = λ id status by at remark batch _. decide-History id status by at remark batch;
  close = close-History;
  start_ingestion = start_ingestion-History env;
  add = add-History;
  remove = remove-History;
}

-- Whatever calls are made, failing or not, no request is lost, none changes its company, its kind or
-- its creation, and a request that has ended stays ended with the same outcome and time of closing,
-- provided that the other transactions keep to the same.
pub serve-History :
    (calls : List (Env × Call)) (db : Db)
    → All (λ c. (d : Db) → History d (c.0.others d)) calls
    → History db (serve calls db)
serve-History calls db h = serve-stable History-preorder calls db (stable calls h)
  where
    stable :
        (calls : List (Env × Call))
        → All (λ c. (d : Db) → History d (c.0.others d)) calls
        → All (λ c. IsStable c.0 History) calls
    stable [] h = tt
    stable (c ∷ rest) h = (History-stable c.0 h.0, stable rest h.1)
