-- ===== src/Delivery/Batch.antt =====
-- The batch publisher's part of `SqlOutboxRepository` (app/app/infrastructure/repositories/outbox.py). `NOW()` is the
-- time of the transaction, and `clock_timestamp()` that of the statement.
use info_backend.Prelude.{
  ℕ, Bool, true, false, not, ◌&&◌, ◌||◌, Option, none, some, List, any, length, map, take, update,
  filter_by, Text, ◌==◌, leb, ltb, if◌then◌else◌,
}
use info_backend.Delivery.Outbox.{
  Moment, is_reached, plus_seconds, pending, delivering, published, OutboxMessage, Tables, Outcome,
  done, failed, lease_lost, invalid_claim, invalid_retry,
}
use info_backend.Delivery.Queue.{
  Context, is_due, is_status, is_owner, is_unexpired, claimed, in_order,
}

-- `lease_expires_at < NOW()`
abbrev is_past : Option Moment → ℕ → Bool
is_past none now = false
is_past (some Moment.minus_infinity) now = true
is_past (some (Moment.at t)) now = ltb t now

unfoldable pub is_claimable : Context → OutboxMessage → Bool
unfolding is_due is_reached
is_claimable c m =
    is_reached m.available_at c.now
    && is_due c m.headers
    && (is_status m.status pending
        || (is_status m.status delivering && is_past m.lease_expires_at c.now))
    && not (c.locked m.id)

abbrev is_among : List OutboxMessage → OutboxMessage → Bool
is_among chosen m = any (λ one. m.id == one.id) chosen

-- `claim_batch`; `size` is the length of the text of the owner.
unfoldable pub claim_batch :
    Context → ℕ → ℕ → ℕ → ℕ → Tables → Outcome (List OutboxMessage × Tables)
unfolding is_claimable claimed
claim_batch c owner size limit lease_seconds t =
    if leb size 0 || ltb 128 size || not (leb 1 limit && leb limit 1000)
    then failed invalid_claim
    else if not (leb 1 lease_seconds && leb lease_seconds 3600)
    then failed invalid_claim
    else (let chosen = take limit (in_order (filter_by (is_claimable c) t.messages)) in
        done (
          map (claimed owner c.now lease_seconds) chosen,
          record t {
            messages = update (is_among chosen) (claimed owner c.now lease_seconds) t.messages;
          },
        ))

-- The condition of both UPDATEs below.
unfoldable pub is_owned : ℕ → ℕ → ℕ → OutboxMessage → Bool
unfolding is_reached
is_owned id owner clock m =
    m.id == id
    && is_status m.status delivering
    && is_owner m.lease_owner (some owner)
    && is_unexpired m.lease_expires_at clock

unfoldable pub marked_published : ℕ → OutboxMessage → OutboxMessage
marked_published now m = record m {
  status = published;
  published_at = some now;
  lease_owner = none;
  lease_expires_at = none;
  last_error = none;
}

-- `mark_published`
unfoldable pub mark_published : ℕ → ℕ → ℕ → ℕ → Tables → Outcome (Unit {0} × Tables)
unfolding is_owned marked_published
mark_published now clock id owner t =
    if any (is_owned id owner clock) t.messages
    then done (
      tt,
      record t { messages = update (is_owned id owner clock) (marked_published now) t.messages },
    )
    else failed lease_lost

unfoldable pub marked_failed : ℕ → Text → ℕ → OutboxMessage → OutboxMessage
marked_failed now error_code retry_seconds m = record m {
  status = pending;
  available_at = plus_seconds now retry_seconds;
  lease_owner = none;
  lease_expires_at = none;
  last_error = some error_code;
}

-- `mark_failed`
unfoldable pub mark_failed : ℕ → ℕ → ℕ → ℕ → Text → ℕ → Tables → Outcome (Unit {0} × Tables)
unfolding is_owned marked_failed
mark_failed now clock id owner error_code retry_seconds t =
    if leb (length error_code) 0
      || ltb 256 (length error_code)
      || not (leb 1 retry_seconds && leb retry_seconds 86400)
    then failed invalid_retry
    else if any (is_owned id owner clock) t.messages
    then done (
      tt,
      record t {
        messages =
            update (is_owned id owner clock) (marked_failed now error_code retry_seconds)
              t.messages;
      },
    )
    else failed lease_lost
