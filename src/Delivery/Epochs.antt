-- ===== src/Delivery/Epochs.antt =====
-- The fence of the consumers: epochs never fall, and an acknowledgement is never lost.
use info_backend.Prelude.{
  ℕ, suc, ◌≤◌, ◌≡◌, refl, subst, Bool, true, false, Option, none, some, List, [], ◌∷◌, ◌++◌, arith,
  find?, update, Text, if◌then◌else◌, filter_by, leb, codes, Option-cases, Bool-cases, inl, inr,
}
use info_backend.Delivery.Event.{OutboxEvent, Formats, is_valid_event}
use info_backend.Delivery.Outbox.{
  OutboxMessage, Execution, Tables, Outcome, Failure, done, failed, write_message, enqueue,
  inserted, same_intent, claim_inbox_once, is_acknowledged, has_deduplication_key,
}
use info_backend.Delivery.Queue.{
  Policy, Context, claim_delivery, claim_found, finish_delivery, after_finish, dead_letter,
  is_candidate, in_order, Topic,
}
use info_backend.Delivery.Journal.{
  reconcile, bury, is_exhausted, is_unacknowledged, offered_again, recover, recover_topics, replay,
}
use info_backend.Delivery.Execution.{
  ConsumerLease, execution_of, has_resource, is_of_lease, check_lease, given_up, renew, release,
}
use info_backend.Rows.{any-append}

abbrev pub epoch : Option Execution → ℕ
epoch none = 0
epoch (some e) = e.epoch

-- The epoch that a resource has reached.
abbrev pub epoch_of : Text → Tables → ℕ
epoch_of key t = epoch (execution_of key t)

-- What no operation undoes.
pub record Advances (t u : Tables) : Type 0 where
  pub epochs : (key : Text) → epoch_of key t ≤ epoch_of key u
  pub marks :
      (consumer : Text) (id : ℕ)
      → is_acknowledged consumer id t ≡ true
      → is_acknowledged consumer id u ≡ true

pub Advances-refl : (t : Tables) → Advances t t
Advances-refl t = record { epochs = λ key. omega arith; marks = λ consumer id h. h }

pub Advances-trans : (t u v : Tables) → Advances t u → Advances u v → Advances t v
Advances-trans t u v p q = record {
  epochs = λ key. omega (arith, p.epochs key, q.epochs key);
  marks = λ consumer id h. q.marks consumer id (p.marks consumer id h);
}

-- Other tables with the same executions and the same inbox.
pub Advances-same : (t u : Tables) → u.executions ≡ t.executions → u.inbox ≡ t.inbox → Advances t u
unfolding is_acknowledged
Advances-same t u e i = record {
  epochs = λ key. rw e (omega arith);
  marks = λ consumer id h. rw i h;
}

-- What the writes of the consumers do to the row of an execution.
pub record IsRise (f : Execution → Execution) : Type 0 where
  pub same_key : (e : Execution) → (f e).resource_key ≡ e.resource_key
  pub rises : (e : Execution) → e.epoch ≤ (f e).epoch

epoch-update :
    (p : Execution → Bool) (f : Execution → Execution) (key : Text)
    → IsRise f
    → (rows : List Execution)
    → epoch (find? (has_resource key) rows) ≤ epoch (find? (has_resource key) (update p f rows))
epoch-update p f key rise [] = omega arith
epoch-update p f key rise (x ∷ rows) =
    ground (arith, rise.same_key x, rise.rises x, epoch-update p f key rise rows)

pub Advances-update :
    (p : Execution → Bool) (f : Execution → Execution) (t : Tables)
    → IsRise f
    → Advances t (record t { executions = update p f t.executions })
unfolding is_acknowledged
Advances-update p f t rise = record {
  epochs = λ key. epoch-update p f key rise t.executions;
  marks = λ consumer id h. h;
}

epoch-append :
    (key : Text) (rows more : List Execution)
    → epoch (find? (has_resource key) rows) ≤ epoch (find? (has_resource key) (rows ++ more))
epoch-append key [] more = omega arith
epoch-append key (x ∷ rows) more = ground (arith, epoch-append key rows more)

pub Advances-append :
    (e : Execution) (t : Tables) → Advances t (record t { executions = t.executions ++ e ∷ [] })
unfolding is_acknowledged
Advances-append e t = record {
  epochs = λ key. epoch-append key t.executions (e ∷ []);
  marks = λ consumer id h. h;
}

pub given_up-Advances : (key : Text) (t : Tables) → Advances t (given_up key t)
unfolding given_up
given_up-Advances key t =
    Advances-update (has_resource key) _ t
      (record { same_key = λ e. refl; rises = λ e. omega arith })

pub release-Advances : (lease : ConsumerLease) (t : Tables) → Advances t (release lease t)
unfolding release
release-Advances lease t =
    Advances-update (is_of_lease lease) _ t
      (record { same_key = λ e. refl; rises = λ e. omega arith })

done-if :
    {A B : Type 0} (x : A × B) {a' : A} {u' : B} (f : Failure) (b : Bool)
    → (if b then done x else failed f) ≡ done (a', u')
    → x.1 ≡ u'
done-if x f b e = ground (arith, e)

done-then :
    {A : Type 0} (x : Outcome A) {y : A} (f : Failure) (b : Bool)
    → (if b then x else failed f) ≡ done y
    → x ≡ done y
done-then x f true e = e
done-then x f false e = cc

pub renew-Advances :
    (p : Policy) (now : ℕ) (lease : ConsumerLease) (t : Tables) {u : Tables} {a : Unit {0}}
    → renew p now lease t ≡ done (a, u)
    → Advances t u
unfolding renew
renew-Advances p now lease t {u} e = subst (Advances t) (done-if _ _ (check_lease lease now t) e) (
    Advances-update (is_of_lease lease) _ t
      (record { same_key = λ e. refl; rises = λ e. omega arith }))

pub enqueue-Advances :
    (formats : Formats) (id now : ℕ) (event : OutboxEvent) (t : Tables) {u : Tables} {n : ℕ}
    → enqueue formats id now event t ≡ done (n, u)
    → Advances t u
unfolding enqueue inserted
enqueue-Advances formats id now event t {u} e =
    go (find? (has_deduplication_key event.deduplication_key) t.messages)
      (done-then _ _ (is_valid_event formats event) e)
  where
    go :
        {n : ℕ} (o : Option OutboxMessage)
        → inserted formats id now event t o ≡ done (n, u)
        → Advances t u
    go none q = Advances-same t u (ground (arith, q)) (ground (arith, q))
    go (some m) q =
        subst (Advances t) (done-if _ _ (same_intent formats event m) q) (Advances-refl t)

pub claim_inbox_once-Advances :
    (consumer : Text) (id : ℕ) (t : Tables) {u : Tables} {b : Bool}
    → claim_inbox_once consumer id t ≡ done (b, u)
    → Advances t u
unfolding claim_inbox_once is_acknowledged
claim_inbox_once-Advances consumer id t {u} e = elim (Bool-cases (is_acknowledged consumer id t)) [
  | inl b ↦ Advances-same t u (ground (arith, b, e)) (ground (arith, b, e))
  | inr b ↦ subst (Advances t) (ground (arith, b, e)) (marked)
]
  where
    marked :
        Advances t
          (record t { inbox = t.inbox ++ record { consumer = consumer; message_id = id } ∷ [] })
    marked = record { epochs = λ key. omega arith; marks = λ other i h. any-append _ t.inbox _ h }

pub claim_delivery-Advances :
    (p : Policy) (c : Context) (owner : ℕ) (t : Tables) → Advances t (claim_delivery p c owner t).1
unfolding claim_delivery write_message
claim_delivery-Advances p c owner t = go (find? (is_candidate p c t) (in_order t.messages))
  where
    go : (o : Option OutboxMessage) → Advances t (claim_found p c.now owner t o).1
    go none = Advances-refl t
    go (some m) = Advances-same t _ refl refl

dead_letter-Advances :
    (now id : ℕ) (error : Text) (t : Tables) → Advances t (dead_letter now id error t)
unfolding dead_letter
dead_letter-Advances now id error t = Advances-same t _ (ground arith) (ground arith)

pub finish_delivery-Advances :
    (p : Policy) (now : ℕ) (message : OutboxMessage) (error : Option Text) (t : Tables) {u : Tables}
    {a : Unit {0}}
    → finish_delivery p now message error t ≡ done (a, u)
    → Advances t u
unfolding finish_delivery after_finish dead_letter
finish_delivery-Advances p now message error t {u} e =
    Advances-same t u (ground (arith, e)) (ground (arith, e))

bury-Advances :
    (now : ℕ) (error : Text) (l : List OutboxMessage) (t : Tables) → Advances t (bury now error l t)
unfolding bury
bury-Advances now error [] t = Advances-refl t
bury-Advances now error (m ∷ l) t =
    Advances-trans t (dead_letter now m.id error t) _ (dead_letter-Advances now m.id error t)
      (bury-Advances now error l _)

abbrev unacknowledged : Text
unacknowledged = codes "consumer_unacknowledged"

recover-Advances :
    (p : Policy) (now : ℕ) (l : List OutboxMessage) (n : ℕ) (t : Tables)
    → Advances t (recover p now l (n, t)).1
unfolding recover write_message
recover-Advances p now [] n t = Advances-refl t
recover-Advances p now (m ∷ l) n t = elim (Bool-cases (leb p.max_attempts m.attempt_count)) [
  | inl b ↦ rw b (
      Advances-trans t (dead_letter now m.id unacknowledged t) _
        (dead_letter-Advances now m.id unacknowledged t)
        (recover-Advances p now l n (dead_letter now m.id unacknowledged t)))
  | inr b ↦ rw b (
      Advances-trans t (write_message m.id offered_again t) _ (Advances-same t _ refl refl)
        (recover-Advances p now l (suc n) (write_message m.id offered_again t)))
]

recover_topics-Advances :
    (p : Policy) (c : Context) (l : List Topic) (n : ℕ) (t : Tables)
    → Advances t (recover_topics p c l (n, t)).1
unfolding recover_topics
recover_topics-Advances p c [] n t = Advances-refl t
recover_topics-Advances p c (one ∷ l) n t = elim (Option-cases one.consumer) [
  | inl e ↦ rw e (recover_topics-Advances p c l n t)
  | inr (consumer, e) ↦
      let rows = filter_by (is_unacknowledged p c one.name consumer t) t.messages in
      let r = recover p c.now rows (n, t) in
      rw e (
        Advances-trans t r.1 _ (recover-Advances p c.now rows n t)
          (recover_topics-Advances p c l r.0 r.1))
]

pub reconcile-Advances : (p : Policy) (c : Context) (t : Tables) → Advances t (reconcile p c t).1
unfolding reconcile
reconcile-Advances p c t =
    Advances-trans t _ _
      (bury-Advances c.now (codes "delivery_attempts_exhausted")
        (filter_by (is_exhausted p c t) t.messages) t)
      (recover_topics-Advances p c p.topics 0 _)

pub replay-Advances :
    (p : Policy) (now id : ℕ) (t : Tables) {u : Tables} {a : Unit {0}}
    → replay p now id t ≡ done (a, u)
    → Advances t u
unfolding replay write_message
replay-Advances p now id t {u} e = Advances-same t u (ground (arith, e)) (ground (arith, e))
