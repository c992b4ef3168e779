-- ===== src/Delivery/Execution.antt =====
-- `DurableTasks` (app/app/infrastructure/messaging/durable_tasks.py): the lease under which a consumer
-- runs. The epoch of a lease is its fence: a lease that has been taken over is never current again.
use info_backend.Prelude.{
  ℕ, ◌+◌, Bool, true, false, not, ◌&&◌, Option, none, some, [], ◌∷◌, ◌++◌, find?, update, Text,
  text_eq, codes, ◌==◌, if◌then◌else◌,
}
use info_backend.Delivery.Outbox.{
  Moment, minus_infinity, is_reached, plus_seconds, OutboxMessage, Execution, Tables, Outcome, done,
  failed, lease_lost, is_acknowledged, claim_inbox_once,
}
use info_backend.Delivery.Queue.{Policy, Context, of_topics, is_due, is_dead}

pub record ConsumerLease : Type 0 where
  pub resource_key : Text
  pub message_id : ℕ
  pub owner : ℕ
  pub epoch : ℕ

abbrev pub has_resource : Text → Execution → Bool
has_resource key e = text_eq e.resource_key key

abbrev pub execution_of : Text → Tables → Option Execution
execution_of key t = find? (has_resource key) t.executions

abbrev pub is_of_lease : ConsumerLease → Execution → Bool
is_of_lease lease e =
    text_eq e.resource_key lease.resource_key
    && e.message_id == lease.message_id
    && e.owner == lease.owner
    && e.epoch == lease.epoch

unfoldable pub is_current : ConsumerLease → ℕ → Option Execution → Bool
unfolding is_reached
is_current lease now none = false
is_current lease now (some e) = is_of_lease lease e && not (is_reached e.expires_at now)

-- `CHECK_LEASE`, and `assert_execution_current` for a session that has a lease; `resource_key` is the primary key.
unfoldable pub check_lease : ConsumerLease → ℕ → Tables → Bool
unfolding is_current
check_lease lease now t = is_current lease now (execution_of lease.resource_key t)

-- The message of the SELECT in `claim_execution`.
unfoldable pub is_ready : Policy → Context → ℕ → Tables → OutboxMessage → Bool
unfolding is_due is_dead is_acknowledged
is_ready p c id t m =
    m.id == id
    && of_topics p.topics m
    && is_due c m.headers
    && not (is_acknowledged m.topic m.id t)
    && not (is_dead m.id t)

abbrev pub resource_of : OutboxMessage → Text
resource_of m = m.topic ++ codes ":" ++ m.aggregate_key

unfoldable pub taken_over : ℕ → ℕ → Moment → Execution → Execution
taken_over id owner expires e = record e {
  message_id = id;
  owner = owner;
  epoch = e.epoch + 1;
  expires_at = expires;
}

-- The INSERT of `claim_execution`: the epoch that it returns, if any.
unfoldable pub seize : Text → ℕ → ℕ → ℕ → ℕ → Tables → Option Execution → Option (ℕ × Tables)
unfolding taken_over is_reached
seize key id owner seconds now t none = some (
  1,
  record t {
    executions =
        t.executions
        ++ record {
          resource_key = key;
          message_id = id;
          owner = owner;
          epoch = 1;
          expires_at = plus_seconds now seconds;
        }
          ∷ [];
  },
)
seize key id owner seconds now t (some e) =
    if is_reached e.expires_at now
    then some (
      e.epoch + 1,
      record t {
        executions =
            update (has_resource key) (taken_over id owner (plus_seconds now seconds)) t.executions;
      },
    )
    else none

unfoldable pub given_up : Text → Tables → Tables
given_up key t = record t {
  executions =
      update (has_resource key) (λ e. record e { expires_at = minus_infinity }) t.executions;
}

-- What happens between the SELECT and the INSERT of `claim_execution`: `others` is what other
-- transactions commit, and `later` is the time that the INSERT reads.
pub record Wait : Type 0 where
  pub others : Tables → Tables
  pub later : ℕ

-- The end of `claim_execution`: the message may have been acknowledged in the meantime.
unfoldable pub unless_done :
    Text
    → ℕ
    → OutboxMessage
    → Option (ℕ × Tables)
    → Tables
    → Option (ConsumerLease × OutboxMessage) × Tables
unfolding given_up is_acknowledged
unless_done key owner m none t = (none, t)
unless_done key owner m (some (epoch, u)) t =
    if is_acknowledged m.topic m.id u then (none, given_up key u) else (
      some (record { resource_key = key; message_id = m.id; owner = owner; epoch = epoch }, m),
      u,
    )

abbrev pub claim_found_execution :
    Policy
    → Wait
    → ℕ
    → Tables
    → Option OutboxMessage
    → Option (ConsumerLease × OutboxMessage) × Tables
claim_found_execution p wait owner t none = (none, t)
claim_found_execution p wait owner t (some m) =
    let key = resource_of m in
    let u = wait.others t in
    unless_done key owner m (seize key m.id owner p.lease_seconds wait.later u (execution_of key u))
      u

-- `claim_execution`
unfoldable pub claim_execution :
    Policy → Context → Wait → ℕ → ℕ → Tables → Option (ConsumerLease × OutboxMessage) × Tables
unfolding is_ready seize unless_done
claim_execution p c wait owner id t =
    claim_found_execution p wait owner t (find? (is_ready p c id t) t.messages)

-- `renew`
unfoldable pub renew : Policy → ℕ → ConsumerLease → Tables → Outcome (Unit {0} × Tables)
unfolding check_lease
renew p now lease t =
    if check_lease lease now t
    then done (
      tt,
      record t {
        executions =
            update (is_of_lease lease)
              (λ e. record e { expires_at = plus_seconds now p.lease_seconds }) t.executions;
      },
    )
    else failed lease_lost

-- `release`; the epoch stays.
unfoldable pub release : ConsumerLease → Tables → Tables
release lease t = record t {
  executions =
      update (is_of_lease lease) (λ e. record e { expires_at = minus_infinity }) t.executions;
}

-- What a consumption meets: the wait of its claim; `before`, what others commit until the lease is
-- checked, and the time of that check; the handler, whose writes end with the transaction; `during`, what
-- others (the heartbeat too) and the handler's own earlier commits write; and the time of the commit.
-- A handler that is cancelled, as when the heartbeat fails, is one that fails.
pub record Surroundings : Type 0 where
  pub wait : Wait
  pub before : Tables → Tables
  pub checked_at : ℕ
  pub during : Tables → Tables
  pub handler : Text → Text → Tables → Outcome Tables
  pub committed_at : ℕ

-- `guard` before the commit
unfoldable pub guarded : ConsumerLease → ℕ → Tables → Outcome Tables
unfolding check_lease
guarded lease now t = if check_lease lease now t then done t else failed lease_lost

abbrev pub after_mark : ConsumerLease → ℕ → Outcome (Bool × Tables) → Outcome Tables
after_mark lease now (failed e) = failed e
after_mark lease now (done (_, t)) = guarded lease now t

abbrev pub after_handler :
    ConsumerLease → Surroundings → OutboxMessage → Outcome Tables → Outcome Tables
after_handler lease x m (failed e) = failed e
after_handler lease x m (done t) = after_mark lease x.committed_at (claim_inbox_once m.topic m.id t)

-- `execute`: what its transaction would commit, from the tables that it meets after `during`
unfoldable pub execute :
    ConsumerLease → Surroundings → OutboxMessage → Tables → Tables → Outcome Tables
unfolding claim_inbox_once guarded check_lease
execute lease x m checked t =
    if check_lease lease x.checked_at checked
    then after_handler lease x m (x.handler m.topic m.payload t)
    else failed lease_lost

-- `finally`: a failed transaction leaves the tables as others have them.
abbrev pub finally : ConsumerLease → Tables → Outcome Tables → Outcome Bool × Tables
finally lease t (done u) = (done true, release lease u)
finally lease t (failed e) = (failed e, release lease t)

unfoldable pub consume_claimed :
    Surroundings → Option (ConsumerLease × OutboxMessage) × Tables → Outcome Bool × Tables
unfolding execute release
consume_claimed x (none, t) = (done false, t)
consume_claimed x (some (lease, m), t) =
    let checked = x.before t in
    let u = x.during checked in finally lease u (execute lease x m checked u)

-- `consume`
unfoldable pub consume : Policy → Context → Surroundings → ℕ → ℕ → Tables → Outcome Bool × Tables
unfolding consume_claimed claim_execution
consume p c x owner id t = consume_claimed x (claim_execution p c x.wait owner id t)
