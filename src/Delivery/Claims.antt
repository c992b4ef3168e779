-- ===== src/Delivery/Claims.antt =====
-- What a successful `claim_execution` has done: the resource is at a new epoch, which is the lease's.
use info_backend.Prelude.{
  ℕ, ◌+◌, ◌<◌, ◌≡◌, refl, subst, true, false, Option, none, some, List, [], ◌∷◌, ◌++◌, arith, find?,
  update, Text, text_eq, text_eq_iff, Bool-cases, inl, inr,
}
use info_backend.Delivery.Outbox.{
  Moment, is_reached, plus_seconds, OutboxMessage, Execution, Tables, is_acknowledged,
}
use info_backend.Delivery.Queue.{Policy, Context}
use info_backend.Delivery.Execution.{
  ConsumerLease, Wait, execution_of, has_resource, claim_execution, claim_found_execution, seize,
  taken_over, unless_done, is_ready, resource_of,
}
use info_backend.Delivery.Epochs.{
  epoch_of, Advances, Advances-refl, Advances-trans, Advances-update, Advances-append,
  given_up-Advances, IsRise,
}

-- From the tables `v` that the INSERT meets to the tables `u`.
pub record IsTakeover (key : Text) (id owner now seconds n : ℕ) (v u : Tables) : Type 0 where
  pub advances : Advances v u
  pub newer : epoch_of key v < n
  pub was_free : (e : Execution) → execution_of key v ≡ some e → is_reached e.expires_at now ≡ true
  pub row :
      execution_of key u
      ≡ some (record {
        resource_key = key;
        message_id = id;
        owner = owner;
        epoch = n;
        expires_at = plus_seconds now seconds;
      })

pub text_eq_refl : (s : Text) → text_eq s s ≡ true
text_eq_refl s = (text_eq_iff s s).1 refl

find?-new :
    (key : Text) (e : Execution) (rows : List Execution)
    → e.resource_key ≡ key
    → find? (has_resource key) rows ≡ none
    → find? (has_resource key) (rows ++ e ∷ []) ≡ some e
find?-new key e [] same h = rw same (rw (text_eq_refl key) refl)
find?-new key e (x ∷ rows) same h =
    ground (arith, λ (p : find? (has_resource key) rows ≡ none). find?-new key e rows same p)

find?-taken_over :
    (key : Text) (id owner : ℕ) (expires : Moment) (rows : List Execution) {e : Execution}
    → find? (has_resource key) rows ≡ some e
    → find? (has_resource key) (update (has_resource key) (taken_over id owner expires) rows)
      ≡ some (record {
        resource_key = key;
        message_id = id;
        owner = owner;
        epoch = e.epoch + 1;
        expires_at = expires;
      })
unfolding taken_over
find?-taken_over key id owner expires [] h = cc
find?-taken_over key id owner expires (x ∷ rows) {e} h = elim (Bool-cases (has_resource key x)) [
  | inl b ↦ rw b (ground (arith, b, h, (text_eq_iff x.resource_key key).0 b))
  | inr b ↦ rw b (rw b (find?-taken_over key id owner expires rows {e = e} (ground (arith, b, h))))
]

some-injective : {x y : ℕ × Tables} → some x ≡ some y → x ≡ y
some-injective q = cc

none-some : {x : ℕ × Tables} {P : Type 0} → ◌≡◌ {A = Option (ℕ × Tables)} none (some x) → P
none-some q = cc

seize-IsTakeover :
    (key : Text) (id owner seconds now : ℕ) (v : Tables) (o : Option Execution) {n : ℕ} {u : Tables}
    → execution_of key v ≡ o
    → seize key id owner seconds now v o ≡ some (n, u)
    → IsTakeover key id owner now seconds n v u
unfolding seize taken_over
seize-IsTakeover key id owner seconds now v none {n} {u} h e =
    let row =
      find?-new key
        (record {
          resource_key = key;
          message_id = id;
          owner = owner;
          epoch = 1;
          expires_at = plus_seconds now seconds;
        })
        v.executions refl h in
    subst (λ z. IsTakeover key id owner now seconds z.0 v z.1) (some-injective e)
      (record {
        advances = Advances-append _ v;
        newer = rw h (omega arith);
        was_free = λ x q. cc;
        row = row;
      })
seize-IsTakeover key id owner seconds now v (some r) {n} {u} h e =
    elim (Bool-cases (is_reached r.expires_at now)) [
      | inl b ↦
          subst (λ z. IsTakeover key id owner now seconds z.0 v z.1) (some-injective (rw b at e))
            (record {
              advances =
                  Advances-update (has_resource key)
                    (taken_over id owner (plus_seconds now seconds)) v rise;
              newer = rw h (omega arith);
              was_free = λ x q. ground (arith, h, q, b);
              row = find?-taken_over key id owner (plus_seconds now seconds) v.executions h;
            })
      | inr b ↦ none-some (rw b at e)
    ]
  where
    rise : IsRise (taken_over id owner (plus_seconds now seconds))
    rise = record { same_key = λ x. refl; rises = λ x. omega arith }

-- A successful claim of the message `m`: its INSERT meets what others have committed by then.
pub record IsExecution (p : Policy) (c : Context) (wait : Wait) (owner id : ℕ) (t : Tables)
    (lease : ConsumerLease) (m : OutboxMessage) (u : Tables) : Type 0 where
  pub found : find? (is_ready p c id t) t.messages ≡ some m
  pub message : lease.message_id ≡ m.id
  pub resource : lease.resource_key ≡ resource_of m
  pub fresh : is_acknowledged m.topic m.id u ≡ false
  pub takeover :
      IsTakeover lease.resource_key lease.message_id lease.owner wait.later p.lease_seconds
        lease.epoch
        (wait.others t)
        u

-- What `claim_execution` answers, and the tables that it leaves.
pub record IsRefusal (wait : Wait) (t u : Tables) : Type 0 where
  pub advances : Advances t (wait.others t) → Advances t u

abbrev pub IsAnswer :
    Policy
    → Context
    → Wait
    → ℕ
    → ℕ
    → Tables
    → Option (ConsumerLease × OutboxMessage) × Tables
    → Type 0
IsAnswer p c wait owner id t (none, u) = IsRefusal wait t u
IsAnswer p c wait owner id t (some (lease, m), u) = IsExecution p c wait owner id t lease m u

unless_done-IsAnswer :
    (p : Policy) (c : Context) (wait : Wait) (owner id : ℕ) (t : Tables) (m : OutboxMessage)
    (o : Option (ℕ × Tables))
    → find? (is_ready p c id t) t.messages ≡ some m
    → seize
        (resource_of m)
        m.id
        owner
        p.lease_seconds
        wait.later
        (wait.others t)
        (execution_of (resource_of m) (wait.others t))
      ≡ o
    → IsAnswer p c wait owner id t (unless_done (resource_of m) owner m o (wait.others t))
unfolding unless_done
unless_done-IsAnswer p c wait owner id t m none r h = record { advances = λ a. a }
unless_done-IsAnswer p c wait owner id t m (some (n, w)) r h =
    let taken =
      seize-IsTakeover (resource_of m) m.id owner p.lease_seconds wait.later (wait.others t) _ refl
        h in
    elim (Bool-cases (is_acknowledged m.topic m.id w)) [
      | inl b ↦ rw b (record {
        advances = λ a.
            Advances-trans t w _ (Advances-trans t (wait.others t) w a taken.advances)
              (given_up-Advances (resource_of m) w);
      })
      | inr b ↦
          rw b (record { found = r; message = refl; resource = refl; fresh = b; takeover = taken })
    ]

pub claim_execution-IsAnswer :
    (p : Policy) (c : Context) (wait : Wait) (owner id : ℕ) (t : Tables)
    → IsAnswer p c wait owner id t (claim_execution p c wait owner id t)
unfolding claim_execution
claim_execution-IsAnswer p c wait owner id t = go (find? (is_ready p c id t) t.messages) refl
  where
    go :
        (o : Option OutboxMessage)
        → find? (is_ready p c id t) t.messages ≡ o
        → IsAnswer p c wait owner id t (claim_found_execution p wait owner t o)
    go none f = record { advances = λ a. Advances-refl t }
    go (some m) f = unless_done-IsAnswer p c wait owner id t m _ f refl

-- A successful claim, by what it answered.
pub claim_execution-IsExecution :
    (p : Policy) (c : Context) (wait : Wait) (owner id : ℕ) (t : Tables) {lease : ConsumerLease}
    {m : OutboxMessage} {u : Tables}
    → claim_execution p c wait owner id t ≡ (some (lease, m), u)
    → IsExecution p c wait owner id t lease m u
claim_execution-IsExecution p c wait owner id t e =
    subst (IsAnswer p c wait owner id t) e (claim_execution-IsAnswer p c wait owner id t)
