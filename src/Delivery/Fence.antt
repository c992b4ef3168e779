-- ===== src/Delivery/Fence.antt =====
-- Sequences of operations on the tables of the delivery, and what a lease that was taken over can do.
use info_backend.Prelude.{
  ℕ, ◌+◌, ◌*◌, ◌<◌, ◌≤◌, ◌≡◌, refl, ◌∙◌, ap, subst, Bool, true, false, Option, none, some, arith,
  Text,
}
use info_backend.Delivery.Event.{OutboxEvent, Formats}
use info_backend.Delivery.Outbox.{
  OutboxMessage, Execution, Tables, done, failed, lease_lost, enqueue, claim_inbox_once, is_reached,
  plus_seconds,
}
use info_backend.Delivery.Queue.{Policy, Context, claim_delivery, finish_delivery}
use info_backend.Delivery.Journal.{reconcile, replay}
use info_backend.Delivery.Execution.{
  ConsumerLease, Wait, execution_of, check_lease, is_current, claim_execution, renew, release,
}
use info_backend.Delivery.Epochs.{
  epoch_of, epoch, Advances, Advances-refl, Advances-trans, enqueue-Advances,
  claim_inbox_once-Advances, claim_delivery-Advances, finish_delivery-Advances, reconcile-Advances,
  replay-Advances, renew-Advances, release-Advances,
}
use info_backend.Delivery.Claims.{IsAnswer, claim_execution-IsAnswer, claim_execution-IsExecution}

-- The operations of publishers, consumers and operators, one after another. A consumption is its
-- steps: the claim, what its handler stores, the mark of the inbox, and the release.
pub data Reaches : Tables → Tables → Type 0 where
  stays : {t : Tables} → Reaches t t
  chains : {t u v : Tables} → Reaches t u → Reaches u v → Reaches t v
  enqueues :
      {t u : Tables} (formats : Formats) (id now : ℕ) (event : OutboxEvent) {n : ℕ}
      → enqueue formats id now event t ≡ done (n, u)
      → Reaches t u
  acknowledges :
      {t u : Tables} (consumer : Text) (id : ℕ) {b : Bool}
      → claim_inbox_once consumer id t ≡ done (b, u)
      → Reaches t u
  publishes :
      {t u : Tables} (p : Policy) (c : Context) (owner : ℕ)
      → (claim_delivery p c owner t).1 ≡ u
      → Reaches t u
  finishes :
      {t u : Tables} (p : Policy) (now : ℕ) (message : OutboxMessage) (error : Option Text)
      {a : Unit {0}}
      → finish_delivery p now message error t ≡ done (a, u)
      → Reaches t u
  reconciles : {t u : Tables} (p : Policy) (c : Context) → (reconcile p c t).1 ≡ u → Reaches t u
  replays :
      {t u : Tables} (p : Policy) (now id : ℕ) {a : Unit {0}}
      → replay p now id t ≡ done (a, u)
      → Reaches t u
  claims :
      {t u : Tables} (p : Policy) (c : Context) (wait : Wait) (owner id : ℕ)
      → Reaches t (wait.others t)
      → (claim_execution p c wait owner id t).1 ≡ u
      → Reaches t u
  renews :
      {t u : Tables} (p : Policy) (now : ℕ) (lease : ConsumerLease) {a : Unit {0}}
      → renew p now lease t ≡ done (a, u)
      → Reaches t u
  releases : {t u : Tables} (lease : ConsumerLease) → release lease t ≡ u → Reaches t u

IsAnswer-Advances :
    (p : Policy) (c : Context) (wait : Wait) (owner id : ℕ) (t : Tables)
    (r : Option (ConsumerLease × OutboxMessage) × Tables)
    → IsAnswer p c wait owner id t r
    → Advances t (wait.others t)
    → Advances t r.1
IsAnswer-Advances p c wait owner id t (none, u) h a = h.advances a
IsAnswer-Advances p c wait owner id t (some (lease, m), u) h a =
    Advances-trans t (wait.others t) u a h.takeover.advances

-- Through any operations, the epoch of a resource never falls, and an acknowledged message stays
-- acknowledged.
pub Reaches-Advances : (t u : Tables) → Reaches t u → Advances t u
Reaches-Advances t u stays = Advances-refl t
Reaches-Advances t v (chains {u = u} a b) =
    Advances-trans t u v (Reaches-Advances t u a) (Reaches-Advances u v b)
Reaches-Advances t u (enqueues formats id now event e) = enqueue-Advances formats id now event t e
Reaches-Advances t u (acknowledges consumer id e) = claim_inbox_once-Advances consumer id t e
Reaches-Advances t u (publishes p c owner e) =
    subst (Advances t) e (claim_delivery-Advances p c owner t)
Reaches-Advances t u (finishes p now message error e) =
    finish_delivery-Advances p now message error t e
Reaches-Advances t u (reconciles p c e) = subst (Advances t) e (reconcile-Advances p c t)
Reaches-Advances t u (replays p now id e) = replay-Advances p now id t e
Reaches-Advances t u (claims p c wait owner id others e) = subst (Advances t) e (
    IsAnswer-Advances p c wait owner id t _ (claim_execution-IsAnswer p c wait owner id t)
      (Reaches-Advances t (wait.others t) others))
Reaches-Advances t u (renews p now lease e) = renew-Advances p now lease t e
Reaches-Advances t u (releases lease e) = subst (Advances t) e (release-Advances lease t)

is_current-newer :
    (lease : ConsumerLease) (now : ℕ) (o : Option Execution)
    → lease.epoch < epoch o
    → is_current lease now o ≡ false
unfolding is_current
is_current-newer lease now none h = refl
is_current-newer lease now (some e) h = ground arith

-- A lease of an epoch that its resource had reached is fenced off for good by the next claim of the
-- resource: after whatever operations, the check of the lease fails, and it cannot be renewed.
pub claim_execution-fences :
    (p q : Policy) (c : Context) (wait : Wait) (owner id now : ℕ) (t u v : Tables)
    (old lease : ConsumerLease) (m : OutboxMessage)
    → old.epoch ≤ epoch_of old.resource_key t
    → Reaches t (wait.others t)
    → claim_execution p c wait owner id t ≡ (some (lease, m), u)
    → lease.resource_key ≡ old.resource_key
    → Reaches u v
    → (check_lease old now v ≡ false) × (renew q now old v ≡ failed lease_lost)
unfolding check_lease renew
claim_execution-fences p q c wait owner id now t u v old lease m issued others e same after =
    let i = claim_execution-IsExecution p c wait owner id t e in
    let before = (Reaches-Advances t (wait.others t) others).epochs old.resource_key in
    let later = (Reaches-Advances u v after).epochs old.resource_key in
    let newer : epoch_of old.resource_key (wait.others t) < epoch_of old.resource_key u =
      subst (λ k. epoch_of k (wait.others t) < epoch_of k u) same
        (rw i.takeover.row i.takeover.newer) in
    let stale =
      is_current-newer old now (execution_of old.resource_key v)
        (omega (arith, issued, before, newer, later)) in
    (stale, rw stale refl)

-- While a lease is unexpired, no other consumer gets a lease of the resource: a claim that does succeed
-- reads a time at which the lease has run out, provided that it meets the execution as the first claim left it.
pub claim_execution-exclusive :
    (p q : Policy) (c d : Context) (wait next : Wait) (owner other id id' : ℕ) (t u v w : Tables)
    (lease second : ConsumerLease) (m n : OutboxMessage)
    → claim_execution p c wait owner id t ≡ (some (lease, m), u)
    → claim_execution q d next other id' v ≡ (some (second, n), w)
    → second.resource_key ≡ lease.resource_key
    → execution_of lease.resource_key (next.others v) ≡ execution_of lease.resource_key u
    → wait.later + p.lease_seconds * 1000000 ≤ next.later
unfolding is_reached
claim_execution-exclusive p q c d wait next owner other id id' t u v w lease second m n e f same
      kept =
    let i = claim_execution-IsExecution p c wait owner id t e in
    let j = claim_execution-IsExecution q d next other id' v f in
    reached (
      j.takeover.was_free _ (ap (λ k. execution_of k (next.others v)) same ∙ kept ∙ i.takeover.row))
  where
    reached :
        is_reached (plus_seconds wait.later p.lease_seconds) next.later ≡ true
        → wait.later + p.lease_seconds * 1000000 ≤ next.later
    reached h = ground arith
