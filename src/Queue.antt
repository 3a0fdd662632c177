-- ===== src/Queue.antt =====
-- `AdmissionQueue` of src/queue.rs: its operations, and the requests that run and wait as a state
-- that events change. A semaphore is a parameter.
pub mod Traffic
pub mod Answers
pub mod Accounted
pub mod Covered
pub mod Accounting
pub mod Tests
use orihsus.Prelude.{
  ℕ, zero, suc, ◌-◌, Bool, true, false, Option, none, some, List, [], ◌∷◌, Result, ok, err, ◌==◌,
  if◌then◌else◌,
}
use orihsus.Semaphore.{
  TryAcquireError, semaphore_closed, no_permits, Polled, ready, shut_out, not_yet, SemaphoreOps,
}

pub data AdmissionError : Type 0 where
  full timeout closed : AdmissionError

pub record QueueSnapshot : Type 0 where
  pub active : ℕ
  pub queued : ℕ
  pub max_concurrency : ℕ
  pub max_queue : ℕ
  pub wait_timeout : ℕ

pub record AdmissionQueue (S : Type 0) : Type 0 where
  pub concurrency : S
  pub queue_slots : S
  pub max_concurrency : ℕ
  pub max_queue : ℕ
  pub wait_timeout : ℕ

-- What `acquire` does when it is first polled: a permit, a place in the queue, or a refusal.
pub data Acquired (S : Type 0) : Type 0 where
  granted : AdmissionQueue S → Acquired S
  enqueued : AdmissionQueue S → Acquired S
  refused : AdmissionError → Acquired S

-- What a waiter in `enqueue` does when it is polled.
pub data Waited (S : Type 0) : Type 0 where
  admitted : AdmissionQueue S → Waited S
  gave_up : AdmissionError → AdmissionQueue S → Waited S
  pending : AdmissionQueue S → Waited S

module _ {S : Type 0} (ops : SemaphoreOps S) where
  -- The asserts, and the panic of `Semaphore::new`, are `none`.
  unfoldable pub new_queue : ℕ → ℕ → ℕ → Option (AdmissionQueue S)
  new_queue max_concurrency max_queue wait_timeout =
      if max_concurrency == 0
      then none
      else if wait_timeout == 0
      then none
      else elim (ops.new_semaphore max_concurrency) [
        | none ↦ none
        | some concurrency ↦ elim (ops.new_semaphore max_queue) [
          | none ↦ none
          | some queue_slots ↦ some (record {
            concurrency = concurrency;
            queue_slots = queue_slots;
            max_concurrency = max_concurrency;
            max_queue = max_queue;
            wait_timeout = wait_timeout;
          })
        ]
      ]

  -- `enqueue` up to its await: the caller holds a place in the queue.
  unfoldable pub enqueue : AdmissionQueue S → Acquired S
  enqueue q = elim (ops.try_acquire q.queue_slots) [
    | ok queue_slots ↦ enqueued (record q { queue_slots = queue_slots })
    | err no_permits ↦ refused full
    | err semaphore_closed ↦ refused closed
  ]

  unfoldable pub acquire : AdmissionQueue S → Acquired S
  unfolding enqueue
  acquire q = elim (ops.try_acquire q.concurrency) [
    | ok concurrency ↦ granted (record q { concurrency = concurrency })
    | err no_permits ↦ enqueue q
    | err semaphore_closed ↦ refused closed
  ]

  -- The first poll of `acquire_owned` in `enqueue`, or a later one.
  unfoldable pub ask : S → ℕ → Bool → Polled S
  ask s ticket started = if started then ops.poll_acquire s ticket else ops.start_acquire s ticket

  -- Its drop: without a poll that it is pending after, there is nothing to undo.
  unfoldable pub abandon : S → ℕ → Bool → S
  abandon s ticket started = if started then ops.drop_acquire s ticket else s

  -- A poll of the `timeout` in `enqueue`, which asks for the permit before it looks at the clock. The
  -- slot is dropped on every way out, and so is an `acquire_owned` that gave no permit.
  unfoldable pub poll_waiter : AdmissionQueue S → ℕ → Bool → Bool → Waited S
  unfolding ask abandon
  poll_waiter q ticket started elapsed =
      let left = record q { queue_slots = ops.release q.queue_slots } in
      elim (ask q.concurrency ticket started) [
        | ready concurrency ↦ admitted (record left { concurrency = concurrency })
        | shut_out ↦
            gave_up closed (record left { concurrency = abandon q.concurrency ticket started })
        | not_yet concurrency ↦
            if elapsed
            then gave_up timeout (record left { concurrency = abandon concurrency ticket true })
            else pending (record q { concurrency = concurrency })
      ]

  unfoldable pub close : AdmissionQueue S → AdmissionQueue S
  close q = record q { concurrency = ops.shut q.concurrency; queue_slots = ops.shut q.queue_slots }

  unfoldable pub is_closed : AdmissionQueue S → Bool
  is_closed q = ops.is_shut q.concurrency

  unfoldable pub snapshot : AdmissionQueue S → QueueSnapshot
  snapshot q = record {
    active = q.max_concurrency - ops.available q.concurrency;
    queued = q.max_queue - ops.available q.queue_slots;
    max_concurrency = q.max_concurrency;
    max_queue = q.max_queue;
    wait_timeout = q.wait_timeout;
  }
