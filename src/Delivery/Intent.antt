-- ===== src/Delivery/Intent.antt =====
-- `enqueue` is idempotent: the deduplication key stands for one intent.
use info_backend.Prelude.{
  ℕ, ◌≡◌, ◌≢◌, refl, sym, subst, true, false, Option, none, some, List, [], ◌∷◌, ◌++◌, arith, All,
  all, find?, Text, text_eq, text_eq_iff, Bool-cases, Option-cases, inl, inr,
}
use info_backend.Delivery.Event.{
  Header, OutboxEvent, Formats, header, has_key, without_key, transport_headers, not_before_header,
  is_valid_event,
}
use info_backend.Delivery.Outbox.{
  OutboxMessage, Tables, Outcome, Failure, done, failed, enqueue, inserted, new_message,
  same_intent, has_header, has_deduplication_key,
}
use info_backend.Delivery.Claims.{text_eq_refl}

-- A `dict` holds a key once.
abbrev pub UniqueKeys : List Header → Type 0
UniqueKeys [] = Unit
UniqueKeys (h ∷ hs) = All (λ k. h.key ≢ k.key) hs × UniqueKeys hs

text_eq-differ : (a b : Text) → a ≢ b → text_eq a b ≡ false
text_eq-differ a b d = elim (Bool-cases (text_eq a b)) [
  | inl e ↦ absurd (d ((text_eq_iff a b).0 e))
  | inr e ↦ e
]

has_header-cons :
    (h : Header) (hs rest : List Header)
    → All (λ k. h.key ≢ k.key) rest
    → all (has_header hs) rest ≡ true
    → all (has_header (h ∷ hs)) rest ≡ true
unfolding header
has_header-cons h hs [] d p = refl
has_header-cons h hs (k ∷ rest) d p =
    rw (text_eq-differ h.key k.key d.0, has_header)
      (ground (arith, p, has_header-cons h hs rest d.1))

has_header_refl : (hs : List Header) → UniqueKeys hs → all (has_header hs) hs ≡ true
unfolding header
has_header_refl [] u = refl
has_header_refl (h ∷ hs) u =
    rw (text_eq_refl h.key, has_header)
      (rw (text_eq_refl h.item) (has_header-cons h hs hs u.0 (has_header_refl hs u.1)))

without_key-same : (key : Text) (hs : List Header) → header key hs ≡ none → without_key key hs ≡ hs
unfolding header
without_key-same key [] h = refl
without_key-same key (k ∷ hs) h = elim (Bool-cases (has_key key k)) [
  | inl e ↦ never (rw e at h)
  | inr e ↦ rw e (rw (without_key-same key hs (rw e at h)) refl)
]
  where
    never : {x : Text} {P : Type 0} → ◌≡◌ {A = Option Text} (some x) none → P
    never q = cc

keyless : (key : Text) (hs : List Header) → header key hs ≡ none → All (λ k. key ≢ k.key) hs
unfolding header
keyless key [] h = tt
keyless key (k ∷ hs) h = elim (Bool-cases (has_key key k)) [
  | inl e ↦ never (rw e at h)
  | inr e ↦ (λ q. differ q e, keyless key hs (rw e at h))
]
  where
    never : {x : Text} {P : Type 0} → ◌≡◌ {A = Option Text} (some x) none → P
    never q = cc

    differ : key ≡ k.key → has_key key k ≡ false → ⊥
    differ q e = ground (arith, (text_eq_iff k.key key).1 (sym q), e)

valid-keyless :
    (formats : Formats) (event : OutboxEvent)
    → is_valid_event formats event ≡ true
    → header not_before_header event.headers ≡ none
unfolding is_valid_event
valid-keyless formats event h = elim (Option-cases (header not_before_header event.headers)) [
  | inl e ↦ e
  | inr (x, e) ↦ ground (arith, e, h)
]

UniqueKeys-transport :
    (formats : Formats) (event : OutboxEvent)
    → is_valid_event formats event ≡ true
    → UniqueKeys event.headers
    → UniqueKeys (transport_headers formats event)
unfolding transport_headers
UniqueKeys-transport formats event h u = elim (Option-cases event.not_before) [
  | inl e ↦ rw e u
  | inr (t, e) ↦
      let free = valid-keyless formats event h in
      rw e (
        rw (without_key-same not_before_header event.headers free)
          (keyless not_before_header event.headers free, u))
]

same_intent-new :
    (formats : Formats) (id now : ℕ) (event : OutboxEvent)
    → is_valid_event formats event ≡ true
    → UniqueKeys event.headers
    → same_intent formats event (new_message formats id now event) ≡ true
unfolding same_intent new_message
same_intent-new formats id now event h u = rw (text_eq_refl event.topic) (
    rw (text_eq_refl event.aggregate_key) (
      rw (text_eq_refl event.payload) (
        rw
          (has_header_refl (transport_headers formats event)
            (UniqueKeys-transport formats event h u))
          refl)))

find?-fresh :
    (key : Text) (m : OutboxMessage) (l : List OutboxMessage)
    → has_deduplication_key key m ≡ true
    → find? (has_deduplication_key key) l ≡ none
    → find? (has_deduplication_key key) (l ++ m ∷ []) ≡ some m
find?-fresh key m [] h e = rw h refl
find?-fresh key m (x ∷ l) h e =
    ground (arith, λ (p : find? (has_deduplication_key key) l ≡ none). find?-fresh key m l h p)

-- Enqueueing an event again, at a later time and with another new id, answers the id of the message that
-- is there and stores nothing, provided that the headers hold each key once.
pub enqueue-idempotent :
    (formats : Formats) (id again now later n : ℕ) (event : OutboxEvent) (t u : Tables)
    → UniqueKeys event.headers
    → enqueue formats id now event t ≡ done (n, u)
    → enqueue formats again later event u ≡ done (n, u)
unfolding enqueue inserted new_message
enqueue-idempotent formats id again now later n event t u keys e =
    elim (Bool-cases (is_valid_event formats event)) [
      | inl h ↦
          rw h (
            go h (find? (has_deduplication_key event.deduplication_key) t.messages) refl
              (rw h at e))
      | inr h ↦ never (rw h at e)
    ]
  where
    never : {f : Failure} {P : Type 0} → ◌≡◌ {A = Outcome (ℕ × Tables)} (failed f) (done (n, u)) → P
    never q = cc

    Again : ℕ × Tables → Type 0
    Again z =
        inserted formats again later event z.1
          (find? (has_deduplication_key event.deduplication_key) z.1.messages)
        ≡ done z

    done-injective : {x y : ℕ × Tables} → done x ≡ done y → x ≡ y
    done-injective q = cc

    go :
        is_valid_event formats event ≡ true
        → (o : Option OutboxMessage)
        → find? (has_deduplication_key event.deduplication_key) t.messages ≡ o
        → inserted formats id now event t o ≡ done (n, u)
        → inserted formats again later event u
            (find? (has_deduplication_key event.deduplication_key) u.messages)
          ≡ done (n, u)
    go h none f q =
        let new = new_message formats id now event in
        subst Again (done-injective q) (
          rw
            (find?-fresh event.deduplication_key new t.messages
              (text_eq_refl event.deduplication_key) f)
            (rw (same_intent-new formats id now event h keys) refl))
    go h (some m) f q = elim (Bool-cases (same_intent formats event m)) [
      | inl b ↦ subst Again (done-injective (rw b at q)) (rw f (rw b refl))
      | inr b ↦ never (rw b at q)
    ]
