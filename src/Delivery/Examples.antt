-- ===== src/Delivery/Examples.antt =====
-- The theorems on the delivery at concrete tables: one message, published, executed and acknowledged.
use info_backend.Prelude.{
  ℕ, ◌+◌, ◌*◌, ◌≤◌, ◌≡◌, ◌≢◌, refl, false, Option, none, some, [], ◌∷◌, codes, Text, text_eq, arith,
}
use info_backend.Delivery.Event.{
  OutboxEvent, Formats, is_valid_event, validate_serialized_size, validate_headers,
  transport_headers, header, is_topic,
}
use info_backend.Delivery.Outbox.{
  Moment, minus_infinity, pending, OutboxMessage, Tables, done, failed, lease_lost, enqueue,
  inserted, new_message, write_message, is_reached, claim_inbox_once, is_acknowledged,
}
use info_backend.Delivery.Queue.{
  Policy, Context, claim_delivery, is_candidate, is_due, is_dead, claimed, finish_delivery, is_held,
  finished, after_finish, dead_letter,
}
use info_backend.Delivery.Execution.{
  ConsumerLease, Wait, Surroundings, check_lease, is_current, claim_execution, is_ready, seize,
  unless_done, taken_over, renew, consume, consume_claimed, execute, guarded, release,
}
use info_backend.Delivery.Exclusive.{Publishing, claim_delivery-exclusive}
use info_backend.Delivery.Epochs.{Advances}
use info_backend.Delivery.Fence.{
  Reaches, stays, Reaches-Advances, claim_execution-fences, claim_execution-exclusive,
}
use info_backend.Delivery.Once.{IsConsumption, consume-IsConsumption, consume-once}
use info_backend.Delivery.Burial.{finish_delivery-buries}
use info_backend.Delivery.Intent.{enqueue-idempotent}
use info_backend.Delivery.Journal.{replay, replayed}
use info_backend.Delivery.Revival.{IsRevived, replay-IsRevived}

abbrev formats : Formats
formats = record { isoformat = λ t. t ∷ []; encoded_size = λ payload headers. 100 }

abbrev event : OutboxEvent
event = record {
  topic = codes "crawl";
  aggregate_key = codes "a";
  deduplication_key = codes "k";
  payload = codes "{}";
  headers = [];
  not_before = some 5;
}

abbrev policy : Policy
policy = record {
  topics = record { name = codes "crawl"; consumer = some (codes "crawl") } ∷ [];
  lease_seconds = 1;
  max_attempts = 1;
}

-- The text of a time is here the time itself.
abbrev read_time : Text → Option ℕ
read_time [] = none
read_time (t ∷ rest) = some t

abbrev context : ℕ → Context
context now = record { now = now; locked = λ id. false; timestamptz = read_time }

abbrev message : OutboxMessage
message = record {
  id = 1;
  topic = codes "crawl";
  aggregate_key = codes "a";
  deduplication_key = codes "k";
  payload = codes "{}";
  headers = [];
  status = pending;
  attempt_count = 0;
  created_at = 10;
  available_at = minus_infinity;
  lease_owner = none;
  lease_expires_at = none;
  published_at = none;
  last_error = none;
}

abbrev stored : Tables
stored = record { messages = message ∷ []; dead = []; executions = []; inbox = [] }

-- Another message, which is created later.
abbrev second : OutboxMessage
second = record message {
  id = 2;
  aggregate_key = codes "b";
  deduplication_key = codes "l";
  created_at = 11;
}

abbrev queue : Tables
queue = record stored { messages = message ∷ second ∷ [] }

abbrev once : Option OutboxMessage × Tables
once = claim_delivery policy (context 10) 77 queue

-- Two publishers claim one after another, and get different messages.
abbrev first_row : OutboxMessage
first_row = claimed 77 10 1 message

abbrev second_row : OutboxMessage
second_row = claimed 78 11 1 second

abbrev after_first : Tables
after_first = record queue { messages = first_row ∷ second ∷ [] }

abbrev after_second : Tables
after_second = record queue { messages = first_row ∷ second_row ∷ [] }

claim_delivery-exclusive_example : second_row.id ≢ first_row.id
unfolding claim_delivery is_candidate is_due is_dead claimed write_message is_reached header text_eq
claim_delivery-exclusive_example =
    claim_delivery-exclusive policy policy (context 10) (context 11) 77 78 queue after_first
      after_first after_second first_row second_row refl Publishing.stays (omega arith) refl

-- The first delivery fails, at the last attempt.
abbrev buried : Tables
buried =
    dead_letter 12 1 (codes "broker")
      (record queue { messages = finished 12 1 (some (codes "broker")) first_row ∷ second ∷ [] })

abbrev no_wait : Wait
no_wait = record { others = λ t. t; later = 13 }

finish_delivery-buries_example :
    ((n : OutboxMessage) (v : Tables)
      → claim_delivery policy (context 4000000) 5 buried ≡ (some n, v)
      → n.id ≢ 1)
    × (claim_execution policy (context 4000000) no_wait 5 1 buried ≡ (none, buried))
unfolding finish_delivery is_held is_reached claimed after_finish
finish_delivery-buries_example =
    finish_delivery-buries policy policy 12 (context 4000000) no_wait 5 first_row
      (some (codes "broker")) after_first buried refl (omega arith) refl

enqueue-idempotent_example :
    enqueue formats 4 20 event (record stored { messages = new_message formats 3 10 event ∷ [] })
    ≡ done (3, record stored { messages = new_message formats 3 10 event ∷ [] })
unfolding enqueue inserted is_valid_event validate_serialized_size validate_headers
    transport_headers header is_topic new_message text_eq
enqueue-idempotent_example =
    enqueue-idempotent formats 3 4 10 20 3 event (record stored { messages = [] })
      (record stored { messages = new_message formats 3 10 event ∷ [] }) tt refl

-- The executions of the first message: a worker, and one that takes over when the lease has expired.
abbrev old_lease : ConsumerLease
old_lease = record { resource_key = codes "crawl:a"; message_id = 1; owner = 50; epoch = 1 }

abbrev new_lease : ConsumerLease
new_lease = record { resource_key = codes "crawl:a"; message_id = 1; owner = 51; epoch = 2 }

abbrev started : Tables
started = record stored {
  executions =
      record {
        resource_key = codes "crawl:a";
        message_id = 1;
        owner = 50;
        epoch = 1;
        expires_at = Moment.at 1000013;
      }
      ∷ [];
}

abbrev taken : Tables
taken = record stored {
  executions =
      record {
        resource_key = codes "crawl:a";
        message_id = 1;
        owner = 51;
        epoch = 2;
        expires_at = Moment.at 2000020;
      }
      ∷ [];
}

abbrev late : Wait
late = record { others = λ t. t; later = 1000020 }

claim_execution-fences_example :
    (check_lease old_lease 14 taken ≡ false) × (renew policy 14 old_lease taken ≡ failed lease_lost)
unfolding claim_execution is_ready is_due is_dead is_acknowledged header seize unless_done
    taken_over is_reached text_eq
claim_execution-fences_example =
    claim_execution-fences policy policy (context 1000020) late 51 1 14 started taken taken
      old_lease new_lease message (omega arith) stays refl refl stays

claim_execution-exclusive_example : 13 + 1 * 1000000 ≤ 1000020
unfolding claim_execution is_ready is_due is_dead is_acknowledged header seize unless_done
    taken_over is_reached text_eq
claim_execution-exclusive_example =
    claim_execution-exclusive policy policy (context 13) (context 1000020) no_wait late 50 51 1 1
      stored started started taken old_lease new_lease message message refl refl refl refl

Reaches-Advances_example : Advances started taken
unfolding claim_execution is_ready is_due is_dead is_acknowledged header seize unless_done
    taken_over is_reached text_eq
Reaches-Advances_example =
    Reaches-Advances started taken (Reaches.claims policy (context 1000020) late 51 1 stays refl)

-- A worker whose handler stores nothing.
abbrev surroundings : Surroundings
surroundings = record {
  wait = no_wait;
  before = λ t. t;
  checked_at = 14;
  during = λ t. t;
  handler = λ topic payload t. done t;
  committed_at = 15;
}

abbrev consumed : Tables
consumed = record stored {
  executions =
      record {
        resource_key = codes "crawl:a";
        message_id = 1;
        owner = 50;
        epoch = 1;
        expires_at = minus_infinity;
      }
      ∷ [];
  inbox = record { consumer = codes "crawl"; message_id = 1 } ∷ [];
}

consume-IsConsumption_example : IsConsumption policy (context 13) surroundings 50 1 stored consumed
unfolding consume consume_claimed execute guarded release claim_inbox_once check_lease is_current
    claim_execution is_ready is_due is_dead is_acknowledged header seize unless_done taken_over
    is_reached text_eq
consume-IsConsumption_example =
    consume-IsConsumption policy (context 13) surroundings 50 1 stored consumed refl

consume-once_example :
    consume policy (context 99) surroundings 60 1 consumed ≡ (done false, consumed)
unfolding consume consume_claimed execute guarded release claim_inbox_once check_lease is_current
    claim_execution is_ready is_due is_dead is_acknowledged header seize unless_done taken_over
    is_reached text_eq
consume-once_example =
    consume-once policy policy (context 13) (context 99) surroundings surroundings 50 60 1
      (codes "crawl") stored consumed consumed (λ e. refl, tt) refl stays (λ e. refl, tt)

-- An operator replays the message whose delivery has failed.
abbrev revived : Tables
revived = record buried {
  messages = replayed (finished 12 1 (some (codes "broker")) first_row) ∷ second ∷ [];
  dead =
      record { message_id = 1; error_code = codes "broker"; failed_at = 12; replayed_at = some 90 }
      ∷ [];
}

replay-IsRevived_example : IsRevived 1 revived
unfolding replay replayed dead_letter finished write_message is_dead claimed text_eq
replay-IsRevived_example = replay-IsRevived policy 90 1 buried revived refl
