-- ===== src/Delivery/Queue.antt =====
-- `DurableDelivery` (app/app/infrastructure/messaging/durable_delivery.py): the claim and the end of a
-- delivery. A statement reads one time; a transaction finds locked the rows that others hold.
use info_backend.Prelude.{
  ℕ, ◌+◌, ◌^◌, min, Bool, true, false, not, ◌&&◌, ◌||◌, Option, none, some, List, [], ◌∷◌, ◌++◌,
  find?, any, take, update, sort_by, Text, text_eq, ◌==◌, leb, if◌then◌else◌, is_none,
}
use info_backend.Delivery.Event.{Header, header, not_before_header}
use info_backend.Delivery.Outbox.{
  Moment, is_reached, plus_seconds, Status, pending, delivering, published, OutboxMessage,
  DeadLetter, Tables, Outcome, done, failed, lease_lost, invalid_policy, write_message,
}

-- An entry of `topics`; without a consumer the messages are hints.
pub record Topic : Type 0 where
  pub name : Text
  pub consumer : Option Text

-- `DurableDelivery`
pub record Policy : Type 0 where
  pub topics : List Topic
  pub lease_seconds : ℕ
  pub max_attempts : ℕ

-- `__init__`
unfoldable pub init : List Topic → ℕ → ℕ → Outcome Policy
init topics lease_seconds max_attempts =
    if leb 1 lease_seconds && leb lease_seconds 3600 && leb 1 max_attempts && leb max_attempts 100
    then done
        (record { topics = topics; lease_seconds = lease_seconds; max_attempts = max_attempts })
    else failed invalid_policy

-- What a transaction meets: the time, the rows that others have locked, and how the database reads
-- the text of a time.
pub record Context : Type 0 where
  pub now : ℕ
  pub locked : ℕ → Bool
  pub timestamptz : Text → Option ℕ

-- `NOT_BEFORE_DUE_SQL`. A header that is no time, which `enqueue` never writes, is not due; in the
-- database the statement fails.
unfoldable pub is_due : Context → List Header → Bool
unfolding header
is_due c headers = elim (header not_before_header headers) [
  | none ↦ true
  | some item ↦ elim (c.timestamptz item) [ none ↦ false | some t ↦ leb t c.now ]
]

abbrev pub of_topics : List Topic → OutboxMessage → Bool
of_topics topics m = any (λ one. text_eq one.name m.topic) topics

abbrev pub has_expired : Option Moment → ℕ → Bool
has_expired none now = false
has_expired (some t) now = is_reached t now

abbrev pub is_status : Status → Status → Bool
is_status pending pending = true
is_status delivering delivering = true
is_status published published = true
is_status _ _ = false

abbrev pub is_in_journal : ℕ → DeadLetter → Bool
is_in_journal id d = d.message_id == id && is_none d.replayed_at

unfoldable pub is_dead : ℕ → Tables → Bool
is_dead id t = any (is_in_journal id) t.dead

-- `m.status='pending' OR (m.status='delivering' AND m.lease_expires_at<=clock_timestamp())`
abbrev pub is_free : ℕ → OutboxMessage → Bool
is_free now m =
    is_status m.status pending
    || (is_status m.status delivering && has_expired m.lease_expires_at now)

-- The rows that `claim_delivery` chooses from.
unfoldable pub is_candidate : Policy → Context → Tables → OutboxMessage → Bool
unfolding is_due is_dead is_reached
is_candidate p c t m =
    of_topics p.topics m
    && is_reached m.available_at c.now
    && is_due c m.headers
    && is_free c.now m
    && not (is_dead m.id t)
    && not (c.locked m.id)

unfoldable pub claimed : ℕ → ℕ → ℕ → OutboxMessage → OutboxMessage
claimed owner now lease_seconds m = record m {
  status = delivering;
  lease_owner = some owner;
  lease_expires_at = some (plus_seconds now lease_seconds);
  attempt_count = m.attempt_count + 1;
}

-- ORDER BY created_at, id
abbrev pub in_order : List OutboxMessage → List OutboxMessage
in_order l = sort_by (λ m. m.created_at) (sort_by (λ m. m.id) l)

-- The UPDATE of the candidate; the row is returned as it is then.
abbrev pub claim_found :
    Policy → ℕ → ℕ → Tables → Option OutboxMessage → Option OutboxMessage × Tables
claim_found p now owner t none = (none, t)
claim_found p now owner t (some m) = (
  some (claimed owner now p.lease_seconds m),
  write_message m.id (claimed owner now p.lease_seconds) t,
)

-- `claim_delivery`; without topics no row is a candidate, as in the early return.
unfoldable pub claim_delivery : Policy → Context → ℕ → Tables → Option OutboxMessage × Tables
unfolding write_message claimed
claim_delivery p c owner t =
    claim_found p c.now owner t (find? (is_candidate p c t) (in_order t.messages))

abbrev pub is_owner : Option ℕ → Option ℕ → Bool
is_owner (some a) (some b) = a == b
is_owner _ _ = false

-- `lease_expires_at>clock_timestamp()`
abbrev pub is_unexpired : Option Moment → ℕ → Bool
is_unexpired none now = false
is_unexpired (some t) now = not (is_reached t now)

-- The condition of the UPDATE in `finish_delivery`.
unfoldable pub is_held : ℕ → OutboxMessage → OutboxMessage → Bool
unfolding is_reached
is_held now message m =
    m.id == message.id
    && is_owner m.lease_owner message.lease_owner
    && is_status m.status delivering
    && is_unexpired m.lease_expires_at now

-- `min(300, 2 ** min(message["attempt_count"], 8))`
abbrev pub delay : ℕ → ℕ
delay attempt_count = min 300 (2 ^ min attempt_count 8)

-- Python's `if error`
abbrev pub is_error : Option Text → Bool
is_error none = false
is_error (some []) = false
is_error (some (c ∷ rest)) = true

unfoldable pub finished : ℕ → ℕ → Option Text → OutboxMessage → OutboxMessage
finished now attempt_count error m = record m {
  status = (if is_error error then pending else published);
  published_at = (if is_none error then some now else m.published_at);
  lease_owner = none;
  lease_expires_at = none;
  last_error = error;
  available_at = plus_seconds now (delay attempt_count);
}

abbrev pub is_letter : ℕ → DeadLetter → Bool
is_letter id d = d.message_id == id

-- `_dead_letter`
unfoldable pub dead_letter : ℕ → ℕ → Text → Tables → Tables
dead_letter now id error t =
    if any (is_letter id) t.dead
    then record t {
      dead =
          update (is_letter id)
            (λ d. record d { error_code = take 256 error; failed_at = now; replayed_at = none })
            t.dead;
    }
    else record t {
      dead =
          t.dead
          ++ record {
            message_id = id;
            error_code = take 256 error;
            failed_at = now;
            replayed_at = none;
          }
            ∷ [];
    }

-- `error[:256]` is taken of the text that `if error` has found.
abbrev pub error_text : Option Text → Text
error_text none = []
error_text (some error) = error

unfoldable pub after_finish : Policy → ℕ → OutboxMessage → Option Text → Tables → Tables
unfolding dead_letter
after_finish p now message error t =
    if is_error error && leb p.max_attempts message.attempt_count
    then dead_letter now message.id (error_text error) t
    else t

-- `finish_delivery`
unfoldable pub finish_delivery :
    Policy → ℕ → OutboxMessage → Option Text → Tables → Outcome (Unit {0} × Tables)
unfolding is_held finished after_finish
finish_delivery p now message error t =
    if any (is_held now message) t.messages
    then done (
      tt,
      after_finish p now message error (record t {
        messages =
            update (is_held now message) (finished now message.attempt_count error) t.messages;
      }),
    )
    else failed lease_lost
