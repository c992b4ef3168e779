-- ===== src/Intake/Rejection.antt =====
-- What a rejection does to a pending request.
use info_backend.Prelude.{
  ℕ, suc, ◌≡◌, refl, ◌∙◌, ap, subst, true, false, Option, none, some, Text, arith, if◌then◌else◌,
  ==_iff, take,
}
use info_backend.Intake.Domain.{
  SecurityRequest, RequestStatus, Progress, Result, ok, strip, is_pending,
}
use info_backend.Intake.Unit.{Db, Session, Env, ◌>>=◌, or_raise}
use info_backend.Intake.Store.{row_of, get, load, must, decide, close, decided, closed, update_row}
use info_backend.Intake.Steps.{after_decision}
use info_backend.Intake.Views.{RequestView, view, view_ended}
use info_backend.Intake.Service.{pending_request, reject, checked_note}
use info_backend.Intake.Rows.{find?-update, find?-has_id}

row_of-update_row :
    (id : ℕ) (f : SecurityRequest → SecurityRequest) (d : Db) {row : SecurityRequest}
    → ((r : SecurityRequest) → (f r).request_id ≡ r.request_id)
    → row_of id d ≡ some row
    → row_of id (update_row id f d) ≡ some (f row)
unfolding update_row
row_of-update_row id f d {row} keeps h =
    find?-update id id f d.requests keeps h
    ∙ ap (λ b. some (if b then f row else row)) ((==_iff id id).1 refl)

decide-eq :
    (id : ℕ) (status : RequestStatus) (by : Text) (at : ℕ) (remark : Option Text)
    (ingestion : Option ℕ) (s : Session) {row : SecurityRequest}
    → row_of id s.db ≡ some row
    → decide id status by at remark ingestion s
      ≡ ok (tt, record s { db = update_row id (decided status by at remark ingestion) s.db })
unfolding decide must or_raise ◌>>=◌
decide-eq id status by at remark ingestion s h = rw h refl

close-eq :
    (id : ℕ) (outcome : Progress) (at : ℕ) (s : Session) {row : SecurityRequest}
    → row_of id s.db ≡ some row
    → close id outcome at s ≡ ok (tt, record s { db = update_row id (closed outcome at) s.db })
unfolding close must or_raise ◌>>=◌
close-eq id outcome at s h = rw h refl

pending_request-eq :
    (id : ℕ) (s : Session) {row : SecurityRequest}
    → row_of id s.db ≡ some row
    → row.is_open ≡ true
    → is_pending row.status ≡ true
    → pending_request id s ≡ ok (load row, s)
unfolding pending_request get load or_raise ◌>>=◌
pending_request-eq id s h o p = rw h (rw o (rw p refl))

-- The row of a request that has been rejected.
abbrev pub rejected_row : Text → Text → ℕ → SecurityRequest → SecurityRequest
rejected_row by reason at row = record row {
  status = RequestStatus.rejected;
  is_open = false;
  decided_by = some (take 64 by);
  decided_at = some at;
  decision_note = some reason;
  outcome = some Progress.rejected;
  closed_at = some at;
}

closed-decided :
    (by reason : Text) (at : ℕ) (row : SecurityRequest)
    → row.is_open ≡ true
    → closed Progress.rejected at (decided RequestStatus.rejected by at (some reason) none row)
      ≡ rejected_row by reason at row
unfolding closed decided
closed-decided by reason at row o = rw o refl

after_decision-ended :
    (env : Env) (id : ℕ) (s : Session) (row : SecurityRequest)
    → row_of id s.db ≡ some row
    → row.is_open ≡ false
    → row.outcome ≡ some Progress.rejected
    → after_decision env id s
      ≡ ok (
        record { request = load row; progress = Progress.rejected; dataset = none },
        record s { committed = s.db },
      )
unfolding after_decision get load view view_ended or_raise ◌>>=◌
after_decision-ended env id s row h o c = rw h (rw o (rw c refl))

-- A pending request that is rejected with a note that passes its check ends then: its row is closed with the
-- outcome `rejected`, the note, the time and the operator, which is committed, and the answer shows the request as
-- rejected.
pub reject-eq :
    (env : Env) (id : ℕ) (by note reason : Text) (s : Session) (row : SecurityRequest)
    → row_of id s.db ≡ some row
    → row.is_open ≡ true
    → is_pending row.status ≡ true
    → checked_note (strip env.space note) s ≡ ok (reason, s)
    → (t : Session) × (reject env id by note s
        ≡ ok (
          record {
            request = load (rejected_row by reason (env.clock s.tick) row);
            progress = Progress.rejected;
            dataset = none;
          },
          t,
        ))
      × (row_of id t.committed ≡ some (rejected_row by reason (env.clock s.tick) row))
unfolding reject load decided closed ◌>>=◌
reject-eq env id by note reason s row h o p good =
    let at = env.clock s.tick in
    let s1 : Session = record s { tick = suc s.tick } in
    let s2 : Session = record s1 {
      db = update_row id (decided RequestStatus.rejected by at (some reason) none) s.db;
    } in
    let s3 : Session = record s2 { db = update_row id (closed Progress.rejected at) s2.db } in
    let h2 =
      row_of-update_row id (decided RequestStatus.rejected by at (some reason) none) s.db
        (λ r. decided-id by reason at r) h in
    let h3 =
      row_of-update_row id (closed Progress.rejected at) s2.db (λ r. closed-id at r) h2
      ∙ ap some (closed-decided by reason at row o) in
    (
      record s3 { committed = s3.db },
      rw good (
          rw (pending_request-eq id s h o p) (
            rw (load-id row (find?-has_id id s.db.requests h)) (
              rw (decide-eq id RequestStatus.rejected by at (some reason) none s1 h) (
                rw (close-eq id Progress.rejected at s2 h2) (
                  answer (find?-has_id id s.db.requests h)
                    (after_decision-ended env id s3 _ h3 refl refl)))))),
      h3,
    )
  where
    ended : SecurityRequest
    ended = rejected_row by reason (env.clock s.tick) row

    answer :
        {r : Result (RequestView × Session)} {u : Session}
        → row.request_id ≡ id
        → r ≡ ok (record { request = load ended; progress = Progress.rejected; dataset = none }, u)
        → r
          ≡ ok (
            record {
              request = record (load ended) { request_id = id };
              progress = Progress.rejected;
              dataset = none;
            },
            u,
          )
    answer {r} {u} e q =
        subst
          (λ k.
            r
            ≡ ok (
              record {
                request = record (load ended) { request_id = k };
                progress = Progress.rejected;
                dataset = none;
              },
              u,
            ))
          e q

    decided-id :
        (by reason : Text) (at : ℕ) (r : SecurityRequest)
        → (decided RequestStatus.rejected by at (some reason) none r).request_id ≡ r.request_id
    decided-id by reason at r = refl

    closed-id :
        (at : ℕ) (r : SecurityRequest) → (closed Progress.rejected at r).request_id ≡ r.request_id
    closed-id at r = ground arith

    load-id : (r : SecurityRequest) → r.request_id ≡ id → (load r).request_id ≡ id
    load-id r e = e
