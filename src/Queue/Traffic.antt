-- ===== src/Queue/Traffic.antt =====
-- The requests of src/queue.rs as a state: those that hold a permit, those that wait, and what each
-- event does. A waiter may be polled at any time, its clock run out or not, and be dropped between
-- two polls.
use orihsus.Prelude.{ℕ, zero, suc, Bool, true, false, List, [], ◌∷◌, if◌then◌else◌}
use orihsus.Semaphore.{SemaphoreOps, is_in, remove}
use orihsus.Queue.{
  AdmissionQueue, Acquired, granted, enqueued, refused, Waited, admitted, gave_up, pending, acquire,
  abandon, poll_waiter, close,
}

-- Those that have a place are known by their tickets: `arrived` before the first poll of their
-- `acquire_owned`, `waiting` after it.
pub record Traffic (S : Type 0) : Type 0 where
  pub queue : AdmissionQueue S
  pub held : ℕ
  pub arrived : List ℕ
  pub waiting : List ℕ
  pub next_ticket : ℕ

pub data Event : Type 0 where
  arrive finish shut_down : Event
  cancel : ℕ → Event
  poll : ℕ → Bool → Event

module _ {S : Type 0} (ops : SemaphoreOps S) where
  unfoldable pub after_arrival : Traffic S → Acquired S → Traffic S
  after_arrival t (granted q) = record t { queue = q; held = suc t.held }
  after_arrival t (enqueued q) = record t {
    queue = q;
    arrived = t.next_ticket ∷ t.arrived;
    next_ticket = suc t.next_ticket;
  }
  after_arrival t (refused e) = t

  -- `t` is without the polled request.
  unfoldable pub after_poll : Traffic S → ℕ → Waited S → Traffic S
  after_poll t ticket (admitted q) = record t { queue = q; held = suc t.held }
  after_poll t ticket (gave_up e q) = record t { queue = q }
  after_poll t ticket (pending q) = record t { queue = q; waiting = ticket ∷ t.waiting }

  -- Dropping a `Permit`, and dropping a waiter with its slot.
  unfoldable pub give_back : Traffic S → ℕ → Traffic S
  give_back t zero = t
  give_back t (suc n) = record t {
    queue = record t.queue { concurrency = ops.release t.queue.concurrency };
    held = n;
  }

  unfoldable pub drop_waiter : Traffic S → ℕ → Traffic S
  unfolding abandon
  drop_waiter t ticket = record t {
    queue = record t.queue {
      concurrency = abandon ops t.queue.concurrency ticket true;
      queue_slots = ops.release t.queue.queue_slots;
    };
    waiting = remove ticket t.waiting;
  }

  -- A ticket of no waiter is none of the queue's.
  unfoldable pub poll_one : Traffic S → ℕ → Bool → Traffic S
  unfolding after_poll
  poll_one t ticket elapsed =
      if is_in ticket t.arrived
      then after_poll (record t { arrived = remove ticket t.arrived }) ticket
          (poll_waiter ops t.queue ticket false elapsed)
      else if is_in ticket t.waiting
      then after_poll (record t { waiting = remove ticket t.waiting }) ticket
          (poll_waiter ops t.queue ticket true elapsed)
      else t

  unfoldable pub step : Traffic S → Event → Traffic S
  unfolding after_arrival after_poll give_back drop_waiter poll_one
  step t arrive = after_arrival t (acquire ops t.queue)
  step t finish = give_back t t.held
  step t (cancel ticket) = if is_in ticket t.waiting then drop_waiter t ticket else t
  step t shut_down = record t { queue = close ops t.queue }
  step t (poll ticket elapsed) = poll_one t ticket elapsed

  unfoldable pub run : Traffic S → List Event → Traffic S
  unfolding step
  run t [] = t
  run t (e ∷ es) = run (step t e) es
