-- ===== src/Delivery/Revival.antt =====
-- `replay` (app/app/infrastructure/messaging/durable_delivery.py) puts a message back into circulation.
use info_backend.Prelude.{
  ℕ, ◌≡◌, refl, subst, false, none, some, List, [], ◌∷◌, arith, All, any, update, Bool-cases, inl,
  inr,
}
use info_backend.Delivery.Outbox.{
  minus_infinity, pending, OutboxMessage, DeadLetter, Tables, Outcome, Failure, done, failed,
  has_message_id, write_message,
}
use info_backend.Delivery.Queue.{Policy, is_dead, is_in_journal}
use info_backend.Delivery.Journal.{is_replayable, replayed, replay}

-- A message as it was when it was enqueued, but for its times.
pub record IsRevived (id : ℕ) (u : Tables) : Type 0 where
  pub not_dead : is_dead id u ≡ false
  pub rows :
      All
        (λ r.
          r.id ≡ id
          → (r.status ≡ pending)
            × (r.attempt_count ≡ 0)
            × (r.available_at ≡ minus_infinity)
            × (r.lease_owner ≡ none))
        u.messages

is_dead-cleared :
    (id now : ℕ) (l : List DeadLetter)
    → any
        (is_in_journal id)
        (update (is_in_journal id) (λ d. record d { replayed_at = some now }) l)
      ≡ false
is_dead-cleared id now [] = refl
is_dead-cleared id now (d ∷ l) = let rest = is_dead-cleared id now l in ground (arith, rest)

rows-replayed :
    (id : ℕ) (l : List OutboxMessage)
    → All
        (λ r.
          r.id ≡ id
          → (r.status ≡ pending)
            × (r.attempt_count ≡ 0)
            × (r.available_at ≡ minus_infinity)
            × (r.lease_owner ≡ none))
        (update (has_message_id id) replayed l)
unfolding replayed
rows-replayed id [] = tt
rows-replayed id (m ∷ l) = elim (Bool-cases (has_message_id id m)) [
  | inl e ↦ rw e ((λ h. (refl, refl, refl, refl)), rows-replayed id l)
  | inr e ↦ rw e ((λ h. absurd (differ h e)), rows-replayed id l)
]
  where
    differ : m.id ≡ id → has_message_id id m ≡ false → ⊥
    differ h e = ground (arith, h, e)

-- A replay that succeeds takes the message out of the journal of dead letters, and makes it pending and
-- available at once, with no lease and all its attempts before it.
pub replay-IsRevived :
    (p : Policy) (now id : ℕ) (t u : Tables) {a : Unit {0}}
    → replay p now id t ≡ done (a, u)
    → IsRevived id u
unfolding replay write_message is_dead
replay-IsRevived p now id t u e = elim (Bool-cases (any (is_replayable p id) t.messages)) [
  | inl b ↦ elim (Bool-cases (any (is_in_journal id) t.dead)) [
    | inl c ↦
        subst (IsRevived id) (same (rw c at (rw b at e)))
          (record { not_dead = is_dead-cleared id now t.dead; rows = rows-replayed id t.messages })
    | inr c ↦ never (rw c at (rw b at e))
  ]
  | inr b ↦ never (rw b at e)
]
  where
    never :
        {f : Failure} {b : Unit {0}} {P : Type 0}
        → ◌≡◌ {A = Outcome (Unit {0} × Tables)} (failed f) (done (b, u))
        → P
    never q = cc

    same :
        {v : Tables} {a b : Unit {0}}
        → ◌≡◌ {A = Outcome (Unit {0} × Tables)} (done (a, v)) (done (b, u))
        → v ≡ u
    same q = cc
