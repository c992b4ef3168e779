-- ===== src/Delivery/Event.antt =====
-- `OutboxEvent` (app/app/application/dto/outbox.py): what a message must be before it is stored.
use info_backend.Prelude.{
  ℕ, Bool, false, not, ◌&&◌, ◌||◌, Option, none, some, List, [], ◌∷◌, length, Text, text_eq, any,
  all, codes, ◌==◌, leb, ltb, if◌then◌else◌, is_some,
}

-- An entry of `headers`.
pub record Header : Type 0 where
  pub key : Text
  pub item : Text

pub record OutboxEvent : Type 0 where
  pub topic : Text
  pub aggregate_key : Text
  pub deduplication_key : Text
  pub payload : Text
  pub headers : List Header
  pub not_before : Option ℕ

-- How the program's libraries write values: `isoformat` a time in UTC, `encoded_size` the bytes of the
-- JSON text of a payload and headers. A payload is its JSON text.
pub record Formats : Type 0 where
  pub isoformat : ℕ → Text
  pub encoded_size : Text → List Header → ℕ

-- `NOT_BEFORE_HEADER`
abbrev pub not_before_header : Text
not_before_header = codes "sunmoonai.not_before.v1"

abbrev pub has_key : Text → Header → Bool
has_key key h = text_eq h.key key

unfoldable pub header : Text → List Header → Option Text
header key [] = none
header key (h ∷ hs) = let rest = header key hs in if has_key key h then some h.item else rest

abbrev pub without_key : Text → List Header → List Header
without_key key [] = []
without_key key (h ∷ hs) = let rest = without_key key hs in if has_key key h then rest else h ∷ rest

-- `transport_headers`
unfoldable pub transport_headers : Formats → OutboxEvent → List Header
transport_headers formats event = elim event.not_before [
  | none ↦ event.headers
  | some at ↦
      record { key = not_before_header; item = formats.isoformat at }
      ∷ without_key not_before_header event.headers
]

abbrev is_break : ℕ → Bool
is_break c = c == 10 || c == 13

abbrev is_bad_header : Header → Bool
is_bad_header h =
    leb (length h.key) 0
    || ltb 128 (length h.key)
    || ltb 2048 (length h.item)
    || any is_break h.key
    || any is_break h.item

-- `validate_headers`
unfoldable pub validate_headers : List Header → Bool
validate_headers headers = not (ltb 32 (length headers) || any is_bad_header headers)

abbrev is_small : ℕ → Bool
is_small c = (leb b'a' c && leb c b'z') || (leb b'0' c && leb c b'9')

-- The pattern of `topic`: [a-z0-9][a-z0-9._-]{0,127}
unfoldable pub is_topic : Text → Bool
is_topic [] = false
is_topic (c ∷ rest) =
    is_small c
    && leb (length rest) 127
    && all (λ x. is_small x || x == b'.' || x == b'_' || x == b'-') rest

abbrev is_key : Text → Bool
is_key text = leb 1 (length text) && leb (length text) 512

-- `validate_serialized_size`
unfoldable pub validate_serialized_size : Formats → OutboxEvent → Bool
validate_serialized_size formats event =
    not (is_some (header not_before_header event.headers))
    && validate_headers (transport_headers formats event)
    && leb (formats.encoded_size event.payload (transport_headers formats event)) 262144

-- `OutboxEvent.model_validate`
unfoldable pub is_valid_event : Formats → OutboxEvent → Bool
unfolding validate_serialized_size validate_headers transport_headers header is_topic
is_valid_event formats event =
    is_topic event.topic
    && is_key event.aggregate_key
    && is_key event.deduplication_key
    && validate_headers event.headers
    && validate_serialized_size formats event
