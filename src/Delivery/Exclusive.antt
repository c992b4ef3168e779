-- ===== src/Delivery/Exclusive.antt =====
-- A claimed delivery is one publisher's until its lease expires.
use info_backend.Prelude.{
  ℕ, ◌+◌, ◌*◌, ◌<◌, ◌≡◌, ◌≢◌, refl, sym, ◌∙◌, Bool, true, false, Option, none, some, List, [], ◌∷◌,
  arith, All, find?, update, sort_by, ltb, Bool-cases, inl, inr, Text, subst,
}
use info_backend.Delivery.Outbox.{
  is_reached, OutboxMessage, Tables, has_message_id, write_message, done,
}
use info_backend.Delivery.Queue.{
  Policy, Context, is_candidate, is_free, claimed, claim_delivery, claim_found, in_order,
  finish_delivery, is_held, finished, after_finish, dead_letter,
}
use info_backend.Rows.{All-sort_by, find?-holds, All-update_rows}

-- What a successful claim returns and does.
pub record IsClaim (p : Policy) (c : Context) (owner : ℕ) (t : Tables) (m : OutboxMessage)
    (u : Tables) : Type 0 where
  pub old : OutboxMessage
  pub free : is_candidate p c t old ≡ true
  pub same_id : m.id ≡ old.id
  pub row : m ≡ claimed owner c.now p.lease_seconds old
  pub after : u ≡ write_message old.id (claimed owner c.now p.lease_seconds) t

module _ (P : OutboxMessage → Type 0) where
  pub claim_delivery-inverts :
      (p : Policy) (c : Context) (owner : ℕ) (t : Tables) {m : OutboxMessage} {u : Tables}
      → All P t.messages
      → claim_delivery p c owner t ≡ (some m, u)
      → (i : IsClaim p c owner t m u) × P i.old
  unfolding claim_delivery claimed
  claim_delivery-inverts p c owner t {m} {u} h e =
      go (find? (is_candidate p c t) (in_order t.messages)) refl e
    where
      go :
          (o : Option OutboxMessage)
          → find? (is_candidate p c t) (in_order t.messages) ≡ o
          → claim_found p c.now owner t o ≡ (some m, u)
          → (i : IsClaim p c owner t m u) × P i.old
      go none f q = cc
      go (some r) f q =
          let (held, free) =
            find?-holds P (is_candidate p c t) (in_order t.messages)
              (All-sort_by P (λ x. x.created_at) (sort_by (λ x. x.id) t.messages)
                (All-sort_by P (λ x. x.id) t.messages h))
              f in
          (record { old = r; free = free; same_id = ground (arith, q); row = cc; after = cc }, held)

-- Every row has the property that says nothing.
pub trivial : (l : List OutboxMessage) → All (λ r. Unit {0}) l
trivial [] = tt
trivial (r ∷ l) = (tt, trivial l)

-- A row whose lease is unexpired, if it is the row of an id.
abbrev LeasedUntil : ℕ → ℕ → OutboxMessage → Type 0
LeasedUntil id until r = r.id ≡ id → (now : ℕ) → now < until → is_free now r ≡ false

claimed-LeasedUntil :
    (owner now seconds id : ℕ) (rows : List OutboxMessage)
    → All
        (LeasedUntil id (now + seconds * 1000000))
        (update (has_message_id id) (claimed owner now seconds) rows)
unfolding claimed is_reached
claimed-LeasedUntil owner now seconds id [] = tt
claimed-LeasedUntil owner now seconds id (x ∷ rows) =
    (ground arith, claimed-LeasedUntil owner now seconds id rows)

candidate-is_free :
    (p : Policy) (c : Context) (t : Tables) (m : OutboxMessage)
    → is_candidate p c t m ≡ true
    → is_free c.now m ≡ true
unfolding is_candidate
candidate-is_free p c t m h = ground arith

-- What publishers do without ending the delivery of the message of the id: claims of messages, and ends
-- of the deliveries of others.
pub data Publishing (id : ℕ) : Tables → Tables → Type 0 where
  stays : {t : Tables} → Publishing id t t
  chains : {t u v : Tables} → Publishing id t u → Publishing id u v → Publishing id t v
  claims :
      {t u : Tables} (p : Policy) (c : Context) (owner : ℕ) {m : OutboxMessage}
      → claim_delivery p c owner t ≡ (some m, u)
      → Publishing id t u
  finishes :
      {t u : Tables} (p : Policy) (now : ℕ) (message : OutboxMessage) (error : Option Text)
      {a : Unit {0}}
      → message.id ≢ id
      → finish_delivery p now message error t ≡ done (a, u)
      → Publishing id t u

leased_or_free : {P : Type 0} {b : Bool} → b ≡ false → b ≡ true → P
leased_or_free x y = cc

-- A new lease of the row ends later, since the one before has expired.
claims-LeasedUntil :
    (id until : ℕ) (p : Policy) (c : Context) (owner : ℕ) (t u : Tables) {m : OutboxMessage}
    → All (LeasedUntil id until) t.messages
    → claim_delivery p c owner t ≡ (some m, u)
    → All (LeasedUntil id until) u.messages
unfolding claimed write_message is_reached
claims-LeasedUntil id until p c owner t u h e =
    let (i, leased) = claim_delivery-inverts (LeasedUntil id until) p c owner t h e in
    rw i.after (
      All-update_rows (LeasedUntil id until) (LeasedUntil id until) (has_message_id i.old.id)
        (claimed owner c.now p.lease_seconds) t.messages
        (λ x old hit same now early.
          let row : i.old.id ≡ id = ground (arith, hit, same) in
          elim (Bool-cases (ltb c.now until)) [
            | inl before ↦
                leased_or_free (leased row c.now (ground (arith, before)))
                  (candidate-is_free p c t i.old i.free)
            | inr expired ↦ ground (arith, expired, early)
          ])
        (λ x old miss. old) h)

finishes-LeasedUntil :
    (id until : ℕ) (p : Policy) (now : ℕ) (message : OutboxMessage) (error : Option Text)
    (t u : Tables) {a : Unit {0}}
    → message.id ≢ id
    → All (LeasedUntil id until) t.messages
    → finish_delivery p now message error t ≡ done (a, u)
    → All (LeasedUntil id until) u.messages
unfolding finish_delivery is_held finished after_finish dead_letter
finishes-LeasedUntil id until p now message error t u other h e =
    let written : update (is_held now message) (finished now message.attempt_count error) t.messages
        ≡ u.messages =
      ground (arith, e) in
    subst (All (LeasedUntil id until)) written (
      All-update_rows (LeasedUntil id until) (LeasedUntil id until) (is_held now message)
        (finished now message.attempt_count error) t.messages
        (λ x old hit same.
          let row : message.id ≡ id = ground (arith, hit, same) in elim (other row) [ ])
        (λ x old miss. old) h)

Publishing-LeasedUntil :
    (id until : ℕ) (t u : Tables)
    → Publishing id t u
    → All (LeasedUntil id until) t.messages
    → All (LeasedUntil id until) u.messages
Publishing-LeasedUntil id until t u stays h = h
Publishing-LeasedUntil id until t v (chains {u = u} a b) h =
    Publishing-LeasedUntil id until u v b (Publishing-LeasedUntil id until t u a h)
Publishing-LeasedUntil id until t u (claims p c owner e) h =
    claims-LeasedUntil id until p c owner t u h e
Publishing-LeasedUntil id until t u (finishes p now message error other e) h =
    finishes-LeasedUntil id until p now message error t u other h e

-- A claimed message is not claimed again, by whatever publisher and with whatever policy, at a time before
-- its lease expires, if what publishers have done to the tables in between is to claim messages and to end
-- the deliveries of others.
pub claim_delivery-exclusive :
    (p q : Policy) (c d : Context) (owner other : ℕ) (t u v w : Tables) (m n : OutboxMessage)
    → claim_delivery p c owner t ≡ (some m, u)
    → Publishing m.id u v
    → d.now < c.now + p.lease_seconds * 1000000
    → claim_delivery q d other v ≡ (some n, w)
    → n.id ≢ m.id
unfolding claimed write_message
claim_delivery-exclusive p q c d owner other t u v w m n e between early f same =
    let (i, x) = claim_delivery-inverts (λ r. Unit {0}) p c owner t (trivial t.messages) e in
    let until = c.now + p.lease_seconds * 1000000 in
    let leased : All (LeasedUntil m.id until) u.messages =
      rw i.same_id
        (rw i.after (claimed-LeasedUntil owner c.now p.lease_seconds i.old.id t.messages)) in
    let later = Publishing-LeasedUntil m.id until u v between leased in
    let (j, held) = claim_delivery-inverts (LeasedUntil m.id until) q d other v later f in
    leased_or_free (held (sym j.same_id ∙ same) d.now early) (candidate-is_free q d v j.old j.free)
