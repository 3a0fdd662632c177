-- ===== src/Queue/Accounting.antt =====
-- What the snapshot of src/queue.rs reports is what is in flight and what waits, the limits hold, and
-- `acquire` answers by these counts and by the line.
use orihsus.Prelude.{
  ℕ, length, ◌+◌, ◌≤◌, ◌<◌, ◌≡◌, sym, ◌∙◌, ◌⊎◌, inl, inr, true, false, List, [], arith,
}
use orihsus.Semaphore.{SemaphoreOps, SemaphoreLaws, is_in}
use orihsus.Semaphore.Covers.{count, within-in, within-length}
use orihsus.Semaphore.Asks.{no_line}
use orihsus.Queue.{
  AdmissionQueue, full, closed, granted, enqueued, refused, acquire, is_closed, snapshot,
}
use orihsus.Queue.Traffic.{Traffic, Event, run}
use orihsus.Queue.Answers.{acquire_cases}
use orihsus.Queue.Accounted.{queued_count, handed_count, Accounted, run-Accounted}
use orihsus.Queue.Covered.{Covered, run-Covered}

module _ {S : Type 0} (ops : SemaphoreOps S) (laws : SemaphoreLaws ops) where
  -- For every fair semaphore with the documented laws, a state in which every permit and place is
  -- accounted for and only waiting requests are in line or were handed a permit, and every history
  -- of arrivals, polls of waiters with or without their time run out, dropped waiters, finished
  -- requests and closing: the snapshot's active count is the requests that hold a permit and the
  -- permits handed to a waiter that was not polled since, its queued count is the requests with a
  -- place, and neither passes its limit. A permit is handed to none but a request that waits, and to
  -- no more than wait.
  pub snapshot-run :
      (t : Traffic S) (es : List Event)
      → Accounted ops laws t
      → Covered ops laws t
      → let t' = run ops t es in
        ((snapshot ops t'.queue).active ≡ t'.held + handed_count ops laws t')
        × ((snapshot ops t'.queue).queued ≡ queued_count t')
        × (t'.held + handed_count ops laws t' ≤ t'.queue.max_concurrency)
        × (queued_count t' ≤ t'.queue.max_queue)
        × (handed_count ops laws t' ≤ length t'.waiting)
        × ((k : ℕ) → is_in k (laws.handed t'.queue.concurrency) ≡ true → is_in k t'.waiting ≡ true)
  unfolding snapshot
  snapshot-run t es a c =
      let t' = run ops t es in
      let b = run-Accounted ops laws t es a in
      let given = laws.handed t'.queue.concurrency in
      let few : (j : ℕ) → count j given ≤ count j t'.waiting =
        λ j. omega (arith, run-Covered ops laws t es c j) in
      (
        omega (arith, b.running),
        omega (arith, b.in_queue),
        omega (arith, b.running),
        omega (arith, b.in_queue),
        within-length given t'.waiting few,
        λ k. within-in k given t'.waiting (few k),
      )

  -- For every fair semaphore with the documented laws, after every history from a state in which
  -- every permit and place is accounted for: `acquire` says `Closed` once the queue is closed. While
  -- it is open, it grants a permit exactly if fewer than `max_concurrency` are held or handed to a
  -- waiter, and then none stands in line before the newcomer; else it gives a place if fewer than
  -- `max_queue` are taken, and else it says `Full`.
  pub acquire_lem :
      (t : Traffic S) (es : List Event)
      → Accounted ops laws t
      → let t' = run ops t es in
        ((is_closed ops t'.queue ≡ true) × (acquire ops t'.queue ≡ refused closed))
        ⊎ ((is_closed ops t'.queue ≡ false)
            × (((t'.held + handed_count ops laws t' < t'.queue.max_concurrency)
                  × (laws.line t'.queue.concurrency ≡ [])
                  × (q : AdmissionQueue S) × (acquire ops t'.queue ≡ granted q))
                ⊎ (((t'.held + handed_count ops laws t' ≡ t'.queue.max_concurrency)
                      × (queued_count t' < t'.queue.max_queue)
                      × (q : AdmissionQueue S) × (acquire ops t'.queue ≡ enqueued q))
                    ⊎ ((t'.held + handed_count ops laws t' ≡ t'.queue.max_concurrency)
                        × (queued_count t' ≡ t'.queue.max_queue)
                        × (acquire ops t'.queue ≡ refused full)))))
  unfolding is_closed
  acquire_lem t es before =
      let t' = run ops t es in
      let a = run-Accounted ops laws t es before in
      elim (acquire_cases ops laws t'.queue) [
        | inl (shut, gone) ↦ inl (shut, gone)
        | inr (inl (s', got, opened, still, left, in_line, same)) ↦ inr (
          opened,
          inl (
            omega (arith, left, a.running),
            no_line ops laws t'.queue.concurrency (ops.available s') left a.fair,
            _,
            got,
          ),
        )
        | inr (inr (opened, none_left, inl (shut, gone))) ↦ inl (sym a.together ∙ shut, gone)
        | inr (inr (opened, none_left, inr (inl (no_slots, gone)))) ↦ inr (
          opened,
          inr (
              inr (omega (arith, none_left, a.running), omega (arith, no_slots, a.in_queue), gone)),
        )
        | inr (inr (opened, none_left, inr (inr (s', waits, still, left, in_line)))) ↦ inr (
          opened,
          inr (
              inl (omega (arith, none_left, a.running), omega (arith, left, a.in_queue), _, waits)),
        )
      ]
