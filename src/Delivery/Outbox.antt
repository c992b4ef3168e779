-- ===== src/Delivery/Outbox.antt =====
-- The tables of the delivery (app/app/infrastructure/models/outbox.py and the migrations
-- 20260716_0003 to 20260723_0010) and the parts of `SqlOutboxRepository`
-- (app/app/infrastructure/repositories/outbox.py) that write a message and a mark of the inbox.
-- A time is a number of microseconds; a UUID is its number.
use info_backend.Prelude.{
  ℕ, ◌+◌, ◌*◌, Bool, true, false, ◌&&◌, ◌||◌, Option, none, some, List, [], ◌∷◌, ◌++◌, length,
  find?, any, all, update, Text, text_eq, ◌==◌, leb, ltb, if◌then◌else◌,
}
use info_backend.Delivery.Event.{
  Header, OutboxEvent, Formats, header, transport_headers, is_valid_event,
}

-- A `timestamptz` that may be `-infinity`.
pub data Moment : Type 0 where
  minus_infinity : Moment
  at : (micros : ℕ) → Moment

-- `moment <= now`
unfoldable pub is_reached : Moment → ℕ → Bool
is_reached minus_infinity now = true
is_reached (at t) now = leb t now

-- `now + (:seconds * interval '1 second')`
abbrev pub plus_seconds : ℕ → ℕ → Moment
plus_seconds now seconds = at (now + seconds * 1000000)

pub data Status : Type 0 where
  pending delivering published : Status

-- `outbox_message`. `lease_expires_at` and `published_at` may be NULL.
pub record OutboxMessage : Type 0 where
  pub id : ℕ
  pub topic : Text
  pub aggregate_key : Text
  pub deduplication_key : Text
  pub payload : Text
  pub headers : List Header
  pub status : Status
  pub attempt_count : ℕ
  pub created_at : ℕ
  pub available_at : Moment
  pub lease_owner : Option ℕ
  pub lease_expires_at : Option Moment
  pub published_at : Option ℕ
  pub last_error : Option Text

-- `outbox_dead_letter`
pub record DeadLetter : Type 0 where
  pub message_id : ℕ
  pub error_code : Text
  pub failed_at : ℕ
  pub replayed_at : Option ℕ

-- `outbox_execution`
pub record Execution : Type 0 where
  pub resource_key : Text
  pub message_id : ℕ
  pub owner : ℕ
  pub epoch : ℕ
  pub expires_at : Moment

pub record InboxMessage : Type 0 where
  pub consumer : Text
  pub message_id : ℕ

pub record Tables : Type 0 where
  pub messages : List OutboxMessage
  pub dead : List DeadLetter
  pub executions : List Execution
  pub inbox : List InboxMessage

pub data Failure : Type 0 where
  lease_lost invalid_event key_reused invalid_consumer outside_policy not_in_journal
        invalid_policy :
      Failure
  invalid_claim invalid_retry handler_failed : Failure

pub data Outcome {ℓ} (A : Type ℓ) : Type ℓ where
  done : A → Outcome A
  failed : Failure → Outcome A

abbrev pub has_message_id : ℕ → OutboxMessage → Bool
has_message_id id m = m.id == id

unfoldable pub write_message : ℕ → (OutboxMessage → OutboxMessage) → Tables → Tables
write_message id f t = record t { messages = update (has_message_id id) f t.messages }

abbrev pub has_header : List Header → Header → Bool
has_header hs h = elim (header h.key hs) [ none ↦ false | some item ↦ text_eq item h.item ]

-- Equality of two `jsonb` objects of texts.
unfoldable pub same_headers : List Header → List Header → Bool
unfolding header
same_headers a b = all (has_header b) a && all (has_header a) b

abbrev pub has_deduplication_key : Text → OutboxMessage → Bool
has_deduplication_key key m = text_eq m.deduplication_key key

unfoldable pub same_intent : Formats → OutboxEvent → OutboxMessage → Bool
unfolding same_headers
same_intent formats event m =
    text_eq m.topic event.topic
    && text_eq m.aggregate_key event.aggregate_key
    && text_eq m.payload event.payload
    && same_headers m.headers (transport_headers formats event)

abbrev available_from : Option ℕ → Moment
available_from none = minus_infinity
available_from (some t) = at t

unfoldable pub new_message : Formats → ℕ → ℕ → OutboxEvent → OutboxMessage
new_message formats id now event = record {
  id = id;
  topic = event.topic;
  aggregate_key = event.aggregate_key;
  deduplication_key = event.deduplication_key;
  payload = event.payload;
  headers = transport_headers formats event;
  status = pending;
  attempt_count = 0;
  created_at = now;
  available_at = available_from event.not_before;
  lease_owner = none;
  lease_expires_at = none;
  published_at = none;
  last_error = none;
}

-- What the INSERT does about the row that holds the deduplication key already.
unfoldable pub inserted :
    Formats → ℕ → ℕ → OutboxEvent → Tables → Option OutboxMessage → Outcome (ℕ × Tables)
unfolding same_intent new_message
inserted formats id now event t none =
    done (id, record t { messages = t.messages ++ new_message formats id now event ∷ [] })
inserted formats id now event t (some m) =
    if same_intent formats event m then done (m.id, t) else failed key_reused

-- `enqueue`; `id` is the fresh `uuid4()`.
unfoldable pub enqueue : Formats → ℕ → ℕ → OutboxEvent → Tables → Outcome (ℕ × Tables)
unfolding inserted
enqueue formats id now event t =
    if is_valid_event formats event
    then inserted formats id now event t
        (find? (has_deduplication_key event.deduplication_key) t.messages)
    else failed invalid_event

abbrev pub is_mark : Text → ℕ → InboxMessage → Bool
is_mark consumer id i = text_eq i.consumer consumer && i.message_id == id

unfoldable pub is_acknowledged : Text → ℕ → Tables → Bool
is_acknowledged consumer id t = any (is_mark consumer id) t.inbox

-- `claim_inbox_once`
unfoldable pub claim_inbox_once : Text → ℕ → Tables → Outcome (Bool × Tables)
unfolding is_acknowledged
claim_inbox_once consumer id t =
    if leb (length consumer) 0 || ltb 128 (length consumer)
    then failed invalid_consumer
    else if is_acknowledged consumer id t
    then done (false, t)
    else done
        (true, record t { inbox = t.inbox ++ record { consumer = consumer; message_id = id } ∷ [] })
