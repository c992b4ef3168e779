-- ===== src/Delivery/Once.antt =====
-- A message is consumed once: the mark of the inbox is committed with the effects of the handler.
use info_backend.Prelude.{
  ℕ, ◌≡◌, refl, subst, Bool, true, false, ◌||◌, Option, none, some, List, [], ◌∷◌, ◌++◌, arith, All,
  any, Text, if◌then◌else◌, ◌==◌, Bool-cases, inl, inr, length, leb, ltb,
}
use info_backend.Delivery.Outbox.{
  OutboxMessage, Tables, Outcome, done, failed, lease_lost, invalid_consumer, claim_inbox_once,
  is_acknowledged, is_mark,
}
use info_backend.Delivery.Queue.{Policy, Context}
use info_backend.Delivery.Execution.{
  ConsumerLease, Surroundings, check_lease, claim_execution, guarded, execute, release, consume,
  consume_claimed, is_ready, finally, after_handler, after_mark,
}
use info_backend.Rows.{any-last, find?-nowhere, find?-holds}
use info_backend.Delivery.Claims.{IsExecution, claim_execution-IsExecution, text_eq_refl}
use info_backend.Delivery.Fence.{Reaches, Reaches-Advances}

claim_inbox_once-acknowledges :
    (consumer : Text) (id : ℕ) (t : Tables) {b : Bool} {u : Tables}
    → claim_inbox_once consumer id t ≡ done (b, u)
    → is_acknowledged consumer id u ≡ true
unfolding claim_inbox_once is_acknowledged
claim_inbox_once-acknowledges consumer id t {b} {u} e =
    elim (Bool-cases (is_acknowledged consumer id t)) [
      | inl h ↦
          subst (λ z. is_acknowledged consumer id z ≡ true)
            (same (is_acknowledged consumer id t) h e) h
      | inr h ↦
          subst (λ z. is_acknowledged consumer id z ≡ true)
            (other (is_acknowledged consumer id t) h e) marked
    ]
  where
    entered : Tables
    entered = record t { inbox = t.inbox ++ record { consumer = consumer; message_id = id } ∷ [] }

    step : Bool → Outcome (Bool × Tables)
    step a =
        if leb (length consumer) 0 || ltb 128 (length consumer)
        then failed invalid_consumer
        else if a
        then done (false, t)
        else done (true, entered)

    same : (a : Bool) → a ≡ true → step a ≡ done (b, u) → t ≡ u
    same a h q = ground (arith, h, q)

    other : (a : Bool) → a ≡ false → step a ≡ done (b, u) → entered ≡ u
    other a h q = ground (arith, h, q)

    marked :
        any (is_mark consumer id) (t.inbox ++ record { consumer = consumer; message_id = id } ∷ [])
        ≡ true
    marked = any-last (is_mark consumer id) t.inbox _ (rw (text_eq_refl consumer) (ground arith))

-- What a transaction of a consumer has committed: the tables that the handler left, with the mark.
pub record IsCommit (lease : ConsumerLease) (x : Surroundings) (m : OutboxMessage)
    (checked t u : Tables) : Type 0 where
  pub held : check_lease lease x.checked_at checked ≡ true
  pub effects : Tables
  pub handled : x.handler m.topic m.payload t ≡ done effects
  pub is_new : Bool
  pub entered : claim_inbox_once m.topic m.id effects ≡ done (is_new, u)
  pub marked : is_acknowledged m.topic m.id u ≡ true
  pub guarded : check_lease lease x.committed_at u ≡ true

after_mark-guarded :
    (lease : ConsumerLease) (x : Surroundings) (o : Outcome (Bool × Tables)) {u : Tables}
    → after_mark lease x.committed_at o ≡ done u
    → (b : Bool) × (o ≡ done (b, u)) × (check_lease lease x.committed_at u ≡ true)
unfolding guarded
after_mark-guarded lease x (failed e) q = cc
after_mark-guarded lease x (done (b, v)) {u} q =
    elim (Bool-cases (check_lease lease x.committed_at v)) [
      | inl c ↦
          let same : v ≡ u = ground (arith, c, q) in
          subst
            (λ z.
              (n : Bool) × (◌≡◌ {A = Outcome (Bool × Tables)} (done (b, v)) (done (n, z)))
              × (check_lease lease x.committed_at z ≡ true))
            same (b, refl, c)
      | inr c ↦ let clash : ◌≡◌ {A = Outcome Tables} (failed lease_lost) (done u) = rw c at q in cc
    ]

after_handler-IsCommit :
    (lease : ConsumerLease) (x : Surroundings) (m : OutboxMessage) (checked t : Tables)
    (o : Outcome Tables) {u : Tables}
    → check_lease lease x.checked_at checked ≡ true
    → x.handler m.topic m.payload t ≡ o
    → after_handler lease x m o ≡ done u
    → IsCommit lease x m checked t u
after_handler-IsCommit lease x m checked t (failed e) h k q = cc
after_handler-IsCommit lease x m checked t (done v) h k q =
    let (is_new, entered, guarded) =
      after_mark-guarded lease x (claim_inbox_once m.topic m.id v) q in
    record {
      held = h;
      effects = v;
      handled = k;
      is_new = is_new;
      entered = entered;
      marked = claim_inbox_once-acknowledges m.topic m.id v entered;
      guarded = guarded;
    }

execute-IsCommit :
    (lease : ConsumerLease) (x : Surroundings) (m : OutboxMessage) (checked t : Tables) {u : Tables}
    → execute lease x m checked t ≡ done u
    → IsCommit lease x m checked t u
unfolding execute
execute-IsCommit lease x m checked t {u} e =
    elim (Bool-cases (check_lease lease x.checked_at checked)) [
      | inl c ↦ after_handler-IsCommit lease x m checked t _ c refl (rw c at e)
      | inr c ↦ let clash : ◌≡◌ {A = Outcome Tables} (failed lease_lost) (done u) = rw c at e in cc
    ]

-- A consumption that succeeds, by its steps: the claim, the commit and the release.
pub record IsConsumption (p : Policy) (c : Context) (x : Surroundings) (owner id : ℕ) (t u : Tables)
    : Type 0 where
  pub lease : ConsumerLease
  pub message : OutboxMessage
  pub claimed : Tables
  pub committed : Tables
  pub execution : IsExecution p c x.wait owner id t lease message claimed
  pub commit : IsCommit lease x message (x.before claimed) (x.during (x.before claimed)) committed
  pub released : u ≡ release lease committed

finally-IsConsumption :
    (p : Policy) (c : Context) (x : Surroundings) (owner id : ℕ) (t : Tables)
    (lease : ConsumerLease) (m : OutboxMessage) (v w : Tables) (o : Outcome Tables) {u : Tables}
    → IsExecution p c x.wait owner id t lease m v
    → ((s : Tables) → o ≡ done s → IsCommit lease x m (x.before v) (x.during (x.before v)) s)
    → finally lease w o ≡ (done true, u)
    → IsConsumption p c x owner id t u
finally-IsConsumption p c x owner id t lease m v w (failed e) i k q = cc
finally-IsConsumption p c x owner id t lease m v w (done s) i k q = record {
  lease = lease;
  message = m;
  claimed = v;
  committed = s;
  execution = i;
  commit = k s refl;
  released = ground (arith, q);
}

-- A consumption that answers `True` had claimed a ready message under a new epoch and held its lease; the
-- handler of the message's topic ran on the tables of its transaction, with the message's payload, and
-- succeeded; what was committed is the tables that the handler left with the mark of the inbox entered in
-- them, while the lease was still current; and the lease was released after that.
pub consume-IsConsumption :
    (p : Policy) (c : Context) (x : Surroundings) (owner id : ℕ) (t u : Tables)
    → consume p c x owner id t ≡ (done true, u)
    → IsConsumption p c x owner id t u
unfolding consume
consume-IsConsumption p c x owner id t u e = go (claim_execution p c x.wait owner id t) refl e
  where
    differ :
        {v : Tables}
        → ◌≡◌ {A = Outcome Bool × Tables} (done false, v) (done true, u)
        → IsConsumption p c x owner id t u
    differ q = cc

    go :
        (r : Option (ConsumerLease × OutboxMessage) × Tables)
        → claim_execution p c x.wait owner id t ≡ r
        → consume_claimed x r ≡ (done true, u)
        → IsConsumption p c x owner id t u
    go (none, v) f q = differ q
    go (some (lease, m), v) f q =
        finally-IsConsumption p c x owner id t lease m v (x.during (x.before v)) _
          (claim_execution-IsExecution p c x.wait owner id t f)
          (λ s h. execute-IsCommit lease x m (x.before v) (x.during (x.before v)) h) q

-- The rows of an id belong to one topic; the id is the primary key, and a topic is never rewritten.
abbrev pub HasTopic : ℕ → Text → OutboxMessage → Type 0
HasTopic id topic r = r.id ≡ id → r.topic ≡ topic

acknowledged-is_ready :
    (p : Policy) (c : Context) (id : ℕ) (topic : Text) (t : Tables)
    → is_acknowledged topic id t ≡ true
    → (rows : List OutboxMessage) → All (HasTopic id topic) rows
    → All (λ r. is_ready p c id t r ≡ false) rows
unfolding is_ready
acknowledged-is_ready p c id topic t h [] rows = tt
acknowledged-is_ready p c id topic t h (r ∷ l) rows = (
  elim (Bool-cases (r.id == id)) [
    | inl e ↦
        let same : r.id ≡ id = ground (arith, e) in rw (rows.0 same) (rw same (rw h (ground arith)))
    | inr e ↦ rw e refl
  ],
  acknowledged-is_ready p c id topic t h l rows.1,
)

ready-id :
    (p : Policy) (c : Context) (id : ℕ) (t : Tables) (r : OutboxMessage)
    → is_ready p c id t r ≡ true
    → r.id ≡ id
unfolding is_ready
ready-id p c id t r h = ground arith

-- After a consumption that answered `True`, and whatever operations since, the message is never
-- executed again: its next consumption answers `False` and writes nothing, by whatever worker.
pub consume-once :
    (p q : Policy) (c d : Context) (x y : Surroundings) (owner other id : ℕ) (topic : Text)
    (t u v : Tables)
    → All (HasTopic id topic) t.messages
    → consume p c x owner id t ≡ (done true, u)
    → Reaches u v
    → All (HasTopic id topic) v.messages
    → consume q d y other id v ≡ (done false, v)
unfolding consume consume_claimed claim_execution release is_acknowledged
consume-once p q c d x y owner other id topic t u v topics e after kept =
    let i = consume-IsConsumption p c x owner id t u e in
    let mark : is_acknowledged topic id v ≡ true =
      (Reaches-Advances u v after).marks topic id (mark_of i) in
    let found =
      find?-nowhere (is_ready q d id v) v.messages
        (acknowledged-is_ready q d id topic v mark v.messages kept) in
    rw found refl
  where
    mark_of : IsConsumption p c x owner id t u → is_acknowledged topic id u ≡ true
    mark_of i =
        let (kept, ready) =
          find?-holds (HasTopic id topic) (is_ready p c id t) t.messages topics i.execution.found in
        let same : i.message.id ≡ id = ready-id p c id t i.message ready in
        rw i.released (
          subst (λ k. any (is_mark k id) i.committed.inbox ≡ true) (kept same)
            (subst (λ k. any (is_mark i.message.topic k) i.committed.inbox ≡ true) same
              i.commit.marked))
