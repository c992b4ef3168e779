-- ===== src/Delivery/Journal.antt =====
-- `reconcile` and `replay` of `DurableDelivery`
-- (app/app/infrastructure/messaging/durable_delivery.py). One time is read in a transaction.
use info_backend.Prelude.{
  ℕ, ◌+◌, ◌*◌, suc, Bool, false, not, ◌&&◌, Option, none, some, List, [], ◌∷◌, any, update,
  filter_by, Text, text_eq, codes, ◌==◌, leb, ltb, if◌then◌else◌,
}
use info_backend.Delivery.Outbox.{
  minus_infinity, is_reached, pending, published, OutboxMessage, Execution, Tables, Outcome, done,
  failed, outside_policy, not_in_journal, write_message, is_acknowledged,
}
use info_backend.Delivery.Queue.{
  Topic, Policy, Context, of_topics, is_free, is_status, is_dead, is_in_journal, dead_letter,
}

-- The rows of the first SELECT: the attempts are used up.
unfoldable pub is_exhausted : Policy → Context → Tables → OutboxMessage → Bool
unfolding is_dead is_reached
is_exhausted p c t m =
    of_topics p.topics m
    && leb p.max_attempts m.attempt_count
    && is_free c.now m
    && not (is_dead m.id t)
    && not (c.locked m.id)

unfoldable pub bury : ℕ → Text → List OutboxMessage → Tables → Tables
unfolding dead_letter
bury now error [] t = t
bury now error (m ∷ rest) t = bury now error rest (dead_letter now m.id error t)

-- `active_execution_sql`
abbrev is_running : ℕ → ℕ → Execution → Bool
is_running id now e = e.message_id == id && not (is_reached e.expires_at now)

abbrev is_stale : Option ℕ → ℕ → ℕ → Bool
is_stale none seconds now = false
is_stale (some t) seconds now = ltb (t + seconds * 1000000) now

-- The rows of the second SELECT: published, and not acknowledged in time.
unfoldable pub is_unacknowledged : Policy → Context → Text → Text → Tables → OutboxMessage → Bool
unfolding is_dead is_reached is_acknowledged
is_unacknowledged p c name consumer t m =
    text_eq m.topic name
    && is_status m.status published
    && is_stale m.published_at p.lease_seconds c.now
    && not (is_acknowledged consumer m.id t)
    && not (any (is_running m.id c.now) t.executions)
    && not (is_dead m.id t)
    && not (c.locked m.id)

unfoldable pub offered_again : OutboxMessage → OutboxMessage
offered_again m = record m { status = pending; available_at = minus_infinity }

-- The loop over the rows of one topic: the last attempt is buried, the others are offered again.
unfoldable pub recover : Policy → ℕ → List OutboxMessage → ℕ × Tables → ℕ × Tables
unfolding dead_letter write_message offered_again
recover p now [] (n, t) = (n, t)
recover p now (m ∷ rest) (n, t) =
    if leb p.max_attempts m.attempt_count
    then recover p now rest (n, dead_letter now m.id (codes "consumer_unacknowledged") t)
    else recover p now rest (suc n, write_message m.id offered_again t)

-- The loop over the topics.
unfoldable pub recover_topics : Policy → Context → List Topic → ℕ × Tables → ℕ × Tables
unfolding recover is_unacknowledged
recover_topics p c [] r = r
recover_topics p c (one ∷ rest) (n, t) = elim one.consumer [
  | none ↦ recover_topics p c rest (n, t)
  | some consumer ↦
      recover_topics p c rest
        (recover p c.now (filter_by (is_unacknowledged p c one.name consumer t) t.messages) (n, t))
]

-- `reconcile`
unfoldable pub reconcile : Policy → Context → Tables → ℕ × Tables
unfolding is_exhausted bury recover_topics
reconcile p c t = recover_topics p c p.topics (
  0,
  bury c.now (codes "delivery_attempts_exhausted") (filter_by (is_exhausted p c t) t.messages) t,
)

unfoldable pub replayed : OutboxMessage → OutboxMessage
replayed m = record m {
  status = pending;
  attempt_count = 0;
  available_at = minus_infinity;
  last_error = none;
  lease_owner = none;
  lease_expires_at = none;
}

abbrev pub is_replayable : Policy → ℕ → OutboxMessage → Bool
is_replayable p id m = m.id == id && of_topics p.topics m

-- `replay`
unfoldable pub replay : Policy → ℕ → ℕ → Tables → Outcome (Unit {0} × Tables)
unfolding write_message replayed is_dead
replay p now id t =
    if not (any (is_replayable p id) t.messages)
    then failed outside_policy
    else if not (is_dead id t)
    then failed not_in_journal
    else done (
      tt,
      write_message id replayed (record t {
        dead = update (is_in_journal id) (λ d. record d { replayed_at = some now }) t.dead;
      }),
    )
