-- ===== src/Queue/Tests.antt =====
-- The theorems on src/queue.rs, at a queue of one permit and one place.
use orihsus.Prelude.{
  ℕ, ◌+◌, ◌≤◌, ◌<◌, ◌≡◌, ◌⊎◌, refl, ap, inl, length, arith, true, false, List, [], ◌∷◌,
}
use orihsus.Semaphore.Fifo.{Fifo, fifo, fifo_laws, line_lem, handed_lem}
use orihsus.Queue.{
  AdmissionQueue, granted, enqueued, refused, full, closed, enqueue, acquire, ask, abandon,
  poll_waiter, is_closed, snapshot,
}
use orihsus.Queue.Traffic.{
  Traffic, Event, arrive, finish, shut_down, poll, after_arrival, after_poll, give_back, poll_one,
  step, run,
}
use orihsus.Queue.Accounted.{Accounted, queued_count, handed_count}
use orihsus.Queue.Covered.{Covered}
use orihsus.Semaphore.Covers.{count}
use orihsus.Semaphore.{is_in}
use orihsus.Queue.Accounting.{snapshot-run, acquire_lem}

abbrev small_queue : AdmissionQueue Fifo
small_queue = record {
  concurrency = record { permits = 1; closed = false; waiting = []; given = [] };
  queue_slots = record { permits = 1; closed = false; waiting = []; given = [] };
  max_concurrency = 1;
  max_queue = 1;
  wait_timeout = 100;
}

abbrev idle : Traffic Fifo
idle = record { queue = small_queue; held = 0; arrived = []; waiting = []; next_ticket = 0 }

idle-Accounted : Accounted (fifo 10) (fifo_laws 10) idle
idle-Accounted = record {
  running = omega (arith, ap length (handed_lem 10 small_queue.concurrency));
  in_queue = omega arith;
  fair = inl (line_lem 10 small_queue.concurrency);
  slots_line = line_lem 10 small_queue.queue_slots;
  together = refl;
}

idle-Covered : Covered (fifo 10) (fifo_laws 10) idle
idle-Covered = λ j. omega (
  arith,
  ap (count j) (line_lem 10 small_queue.concurrency),
  ap (count j) (handed_lem 10 small_queue.concurrency),
)

-- The second request waits, and the permit that the first gives back is its own before it is polled.
abbrev handing : List Event
handing = arrive ∷ arrive ∷ poll 0 false ∷ finish ∷ []

abbrev rush : List Event
rush =
    arrive
    ∷ arrive
    ∷ poll 0 false
    ∷ finish
    ∷ arrive
    ∷ poll 0 true
    ∷ arrive
    ∷ poll 1 true
    ∷ shut_down
    ∷ arrive
    ∷ []

-- A newcomer does not get the permit that was handed to the waiter.
no_barging : acquire (fifo 10) (run (fifo 10) idle handing).queue ≡ refused full
unfolding run step acquire enqueue poll_one ask abandon poll_waiter after_poll after_arrival
    give_back
no_barging = refl

handed_at_once :
    let t = run (fifo 10) idle handing in
    (t.held ≡ 0)
    × (handed_count (fifo 10) (fifo_laws 10) t ≡ 1)
    × ((snapshot (fifo 10) t.queue).active ≡ 1)
unfolding run step acquire enqueue poll_one ask abandon poll_waiter after_poll after_arrival
    give_back snapshot
handed_at_once =
    let c = (run (fifo 10) idle handing).queue.concurrency in
    (refl, ap length (handed_lem 10 c), refl)

snapshot-run_example :
    let t = run (fifo 10) idle rush in
    ((snapshot (fifo 10) t.queue).active ≡ t.held + handed_count (fifo 10) (fifo_laws 10) t)
    × ((snapshot (fifo 10) t.queue).queued ≡ queued_count t)
    × (t.held + handed_count (fifo 10) (fifo_laws 10) t ≤ t.queue.max_concurrency)
    × (queued_count t ≤ t.queue.max_queue)
    × (handed_count (fifo 10) (fifo_laws 10) t ≤ length t.waiting)
    × ((k : ℕ)
        → is_in k ((fifo_laws 10).handed t.queue.concurrency) ≡ true
        → is_in k t.waiting ≡ true)
snapshot-run_example = snapshot-run (fifo 10) (fifo_laws 10) idle rush idle-Accounted idle-Covered

acquire_lem_example :
    let t = run (fifo 10) idle handing in
    ((is_closed (fifo 10) t.queue ≡ true) × (acquire (fifo 10) t.queue ≡ refused closed))
    ⊎ ((is_closed (fifo 10) t.queue ≡ false)
        × (((t.held + handed_count (fifo 10) (fifo_laws 10) t < t.queue.max_concurrency)
              × ((fifo_laws 10).line t.queue.concurrency ≡ [])
              × (q : AdmissionQueue Fifo) × (acquire (fifo 10) t.queue ≡ granted q))
            ⊎ (((t.held + handed_count (fifo 10) (fifo_laws 10) t ≡ t.queue.max_concurrency)
                  × (queued_count t < t.queue.max_queue)
                  × (q : AdmissionQueue Fifo) × (acquire (fifo 10) t.queue ≡ enqueued q))
                ⊎ ((t.held + handed_count (fifo 10) (fifo_laws 10) t ≡ t.queue.max_concurrency)
                    × (queued_count t ≡ t.queue.max_queue)
                    × (acquire (fifo 10) t.queue ≡ refused full)))))
acquire_lem_example = acquire_lem (fifo 10) (fifo_laws 10) idle handing idle-Accounted
