-- ===== src/Delivery/Burial.antt =====
-- The journal of dead letters: a message in it is neither published nor executed until its replay.
use info_backend.Prelude.{
  ℕ, ◌≤◌, ◌≡◌, ◌≢◌, refl, sym, ◌∙◌, subst, Bool, true, false, ◌&&◌, Option, none, some, List, [],
  ◌∷◌, arith, All, any, update, Text, take, if◌then◌else◌, ◌==◌, leb, Bool-cases, inl, inr,
}
use info_backend.Delivery.Outbox.{
  OutboxMessage, DeadLetter, Tables, Outcome, done, failed, lease_lost,
}
use info_backend.Delivery.Queue.{
  Policy, Context, claim_delivery, is_candidate, is_dead, is_in_journal, dead_letter, is_letter,
  finish_delivery, after_finish, is_error, error_text, is_held, finished,
}
use info_backend.Delivery.Execution.{Wait, claim_execution, is_ready}
use info_backend.Rows.{any-last, find?-nowhere}
use info_backend.Delivery.Exclusive.{claim_delivery-inverts, trivial}

is_dead-update :
    (now id : ℕ) (error : Text) (l : List DeadLetter)
    → any (is_letter id) l ≡ true
    → any (is_in_journal id) (
        update
          (is_letter id)
          (λ d. record d { error_code = take 256 error; failed_at = now; replayed_at = none })
          l)
      ≡ true
is_dead-update now id error [] h = cc
is_dead-update now id error (d ∷ l) h = ground (arith, is_dead-update now id error l)

dead_letter-is_dead :
    (now id : ℕ) (error : Text) (t : Tables) → is_dead id (dead_letter now id error t) ≡ true
unfolding is_dead dead_letter
dead_letter-is_dead now id error t = elim (Bool-cases (any (is_letter id) t.dead)) [
  | inl h ↦ rw h (is_dead-update now id error t.dead h)
  | inr h ↦ rw h (any-last (is_in_journal id) t.dead _ (ground arith))
]

finish_delivery-is_dead :
    (p : Policy) (now : ℕ) (m : OutboxMessage) (error : Option Text) (t u : Tables) {a : Unit {0}}
    → is_error error ≡ true
    → p.max_attempts ≤ m.attempt_count
    → finish_delivery p now m error t ≡ done (a, u)
    → is_dead m.id u ≡ true
unfolding finish_delivery after_finish
finish_delivery-is_dead p now m error t u bad used e =
    elim (Bool-cases (any (is_held now m) t.messages)) [
      | inl h ↦
          subst (λ z. is_dead m.id z ≡ true) (same bad (reached used) (rw h at e))
            (dead_letter-is_dead now m.id (error_text error) after)
      | inr h ↦ never (rw h at e)
    ]
  where
    after : Tables
    after = record t {
      messages = update (is_held now m) (finished now m.attempt_count error) t.messages;
    }

    reached : p.max_attempts ≤ m.attempt_count → leb p.max_attempts m.attempt_count ≡ true
    reached h = ground arith

    same :
        {x y : Bool} {a b : Unit {0}}
        → x ≡ true
        → y ≡ true
        → ◌≡◌ {A = Outcome (Unit {0} × Tables)}
            (done (a, (if x && y then dead_letter now m.id (error_text error) after else after)))
            (done (b, u))
        → dead_letter now m.id (error_text error) after ≡ u
    same f g q = ground (arith, f, g, q)

    never :
        {b : Unit {0}}
        → ◌≡◌ {A = Outcome (Unit {0} × Tables)} (failed lease_lost) (done (b, u))
        → is_dead m.id u ≡ true
    never q = cc

dead-is_ready :
    (p : Policy) (c : Context) (id : ℕ) (t : Tables)
    → is_dead id t ≡ true
    → (rows : List OutboxMessage) → All (λ r. is_ready p c id t r ≡ false) rows
unfolding is_ready
dead-is_ready p c id t h [] = tt
dead-is_ready p c id t h (r ∷ l) = (
  elim (Bool-cases (r.id == id)) [
    | inl e ↦
        let same : r.id ≡ id = ground (arith, e) in
        let dead : is_dead r.id t ≡ true = subst (λ k. is_dead k t ≡ true) (sym same) h in
        ground (arith, dead)
    | inr e ↦ rw e refl
  ],
  dead-is_ready p c id t h l,
)

dead-is_candidate :
    (p : Policy) (c : Context) (t : Tables) (m : OutboxMessage)
    → is_candidate p c t m ≡ true
    → is_dead m.id t ≡ false
unfolding is_candidate
dead-is_candidate p c t m h = ground (arith, h)

-- When the last attempt of a delivery fails, the message is out of circulation: no publisher claims it
-- and no consumer executes it from the tables that `finish_delivery` leaves, at whatever time.
pub finish_delivery-buries :
    (p q : Policy) (now : ℕ) (d : Context) (wait : Wait) (other : ℕ) (m : OutboxMessage)
    (error : Option Text) (t u : Tables) {a : Unit {0}}
    → is_error error ≡ true
    → p.max_attempts ≤ m.attempt_count
    → finish_delivery p now m error t ≡ done (a, u)
    → ((n : OutboxMessage) (v : Tables) → claim_delivery q d other u ≡ (some n, v) → n.id ≢ m.id)
      × (claim_execution q d wait other m.id u ≡ (none, u))
unfolding claim_execution
finish_delivery-buries p q now d wait other m error t u bad used e =
    let dead = finish_delivery-is_dead p now m error t u bad used e in
    (
      λ n v f same.
          let (i, x) = claim_delivery-inverts (λ r. Unit {0}) q d other u (trivial u.messages) f in
          let alive = dead-is_candidate q d u i.old i.free in
          both (subst (λ k. is_dead k u ≡ true) (sym same ∙ i.same_id) dead) alive,
      rw (find?-nowhere (is_ready q d m.id u) u.messages (dead-is_ready q d m.id u dead u.messages))
          refl,
    )
  where
    both : {b : Bool} → b ≡ true → b ≡ false → ⊥
    both x y = cc
