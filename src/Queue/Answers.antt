-- ===== src/Queue/Answers.antt =====
-- What the operations of src/queue.rs answer, by the state of the semaphores.
use orihsus.Prelude.{
  ℕ, suc, ◌≡◌, refl, ◌⊎◌, inl, inr, Bool, true, false, ok, err, arith, Bool-cases,
}
use orihsus.Semaphore.{semaphore_closed, no_permits, SemaphoreOps, SemaphoreLaws}
use orihsus.Semaphore.Load.{ℕ-cases}
use orihsus.Semaphore.Asks.{Keeps, Takes, Asked, drop_after, self-Keeps, start_cases, poll_cases}
use orihsus.Queue.{
  AdmissionQueue, AdmissionError, full, closed, timeout, granted, enqueued, refused, Waited,
  admitted, gave_up, pending, enqueue, acquire, ask, abandon, poll_waiter,
}

module _ {S : Type 0} (ops : SemaphoreOps S) (laws : SemaphoreLaws ops) where
  -- What `try_acquire` does to a semaphore, with what it says of the state before.
  pub try_cases :
      (s : S)
      → ((ops.try_acquire s ≡ err semaphore_closed) × (ops.is_shut s ≡ true))
        ⊎ (((ops.try_acquire s ≡ err no_permits) × (ops.is_shut s ≡ false) × (ops.available s ≡ 0))
            ⊎ ((s' : S) × (ops.try_acquire s ≡ ok s')
                × (ops.is_shut s ≡ false)
                × (ops.available s ≡ suc (ops.available s'))
                × (ops.is_shut s' ≡ false)
                × (laws.line s' ≡ laws.line s)
                × (laws.handed s' ≡ laws.handed s)))
  try_cases s = elim (Bool-cases (ops.is_shut s)) [
    | inl shut ↦ inl (laws.try_shut s shut, shut)
    | inr opened ↦ elim (ℕ-cases (ops.available s)) [
      | inl empty ↦ inr (inl (laws.try_empty s opened empty, opened, empty))
      | inr (n, left) ↦
          let (s', took, now, still, in_line, same) = laws.try_some s n opened left in
          inr (inr (s', took, opened, omega (arith, now, left), still, in_line, same))
    ]
  ]

  -- The ways that `acquire` goes, with what each says of the semaphores.
  pub acquire_cases :
      (q : AdmissionQueue S)
      → ((ops.is_shut q.concurrency ≡ true) × (acquire ops q ≡ refused closed))
        ⊎ (((s' : S) × (acquire ops q ≡ granted (record q { concurrency = s' }))
              × (ops.is_shut q.concurrency ≡ false)
              × (ops.is_shut s' ≡ false)
              × (ops.available q.concurrency ≡ suc (ops.available s'))
              × (laws.line s' ≡ laws.line q.concurrency)
              × (laws.handed s' ≡ laws.handed q.concurrency))
            ⊎ ((ops.is_shut q.concurrency ≡ false)
                × (ops.available q.concurrency ≡ 0)
                × (((ops.is_shut q.queue_slots ≡ true) × (acquire ops q ≡ refused closed))
                    ⊎ (((ops.available q.queue_slots ≡ 0) × (acquire ops q ≡ refused full))
                        ⊎ ((s' : S) × (acquire ops q ≡ enqueued (record q { queue_slots = s' }))
                            × (ops.is_shut s' ≡ false)
                            × (ops.available q.queue_slots ≡ suc (ops.available s'))
                            × (laws.line s' ≡ laws.line q.queue_slots))))))
  unfolding acquire enqueue
  acquire_cases q = elim (try_cases q.concurrency) [
    | inl (failed, shut) ↦ inl (shut, rw (failed, acquire) refl)
    | inr (inr (s', took, opened, left, still, in_line, same)) ↦
        inr (inl (s', rw (took, acquire) refl, opened, still, left, in_line, same))
    | inr (inl (failed, opened, none_left)) ↦ inr (
        inr (
          opened,
          none_left,
          elim (try_cases q.queue_slots) [
            | inl (no_slot, shut) ↦ inl (shut, rw (failed, no_slot, acquire, enqueue) refl)
            | inr (inl (no_slot, slots_opened, no_slots)) ↦
                inr (inl (no_slots, rw (failed, no_slot, acquire, enqueue) refl))
            | inr (inr (s', took, slots_opened, left, still, in_line, same)) ↦
                inr (inr (s', rw (failed, took, acquire, enqueue) refl, still, left, in_line))
          ],
        ))
  ]

  -- The queue after a poll, its slot given back.
  abbrev pub left_with : AdmissionQueue S → S → AdmissionQueue S
  left_with q s = record q { queue_slots = ops.release q.queue_slots; concurrency = s }

  -- The ways that a waiter's poll goes: with `s` for its semaphore, it is pending, gave up with its
  -- slot given back, or took a permit with its slot given back.
  abbrev pub Settled : AdmissionQueue S → Waited S → Type 0
  Settled q r =
      ((s : S) × (r ≡ pending (record q { concurrency = s })) × Keeps ops laws q.concurrency s)
      ⊎ (((s : S) × (e : AdmissionError) × (r ≡ gave_up e (left_with q s))
            × Keeps ops laws q.concurrency s)
          ⊎ ((s : S) × (r ≡ admitted (left_with q s)) × Takes ops laws q.concurrency s))

  ask_cases : (s : S) (k : ℕ) (started : Bool) → Asked ops laws s (ask ops s k started)
  unfolding ask
  ask_cases s k true = poll_cases ops laws s k
  ask_cases s k false = start_cases ops laws s k

  abandon-Keeps :
      (s s' : S) (k : ℕ) (started : Bool)
      → Keeps ops laws s s'
      → Keeps ops laws s (abandon ops s' k started)
  unfolding abandon
  abandon-Keeps s s' k true kept = drop_after ops laws s s' k kept
  abandon-Keeps s s' k false kept = kept

  pub waiter_cases :
      (q : AdmissionQueue S) (k : ℕ) (started elapsed : Bool)
      → Settled q (poll_waiter ops q k started elapsed)
  unfolding poll_waiter
  waiter_cases q k started elapsed = elim (ask_cases q.concurrency k started) [
    | inl shut ↦ inr (
        inl (
          _,
          closed,
          rw (shut, poll_waiter) refl,
          abandon-Keeps q.concurrency q.concurrency k started (self-Keeps ops laws q.concurrency),
        ))
    | inr (inl (s, took, taken)) ↦ inr (inr (s, rw (took, poll_waiter) refl, taken))
    | inr (inr (s, waits, kept)) ↦ elim (Bool-cases elapsed) [
      | inr early ↦ inl (s, rw (waits, early, poll_waiter) refl, kept)
      | inl late ↦ inr (
          inl (
            _,
            timeout,
            rw (waits, late, poll_waiter) refl,
            abandon-Keeps q.concurrency s k true kept,
          ))
    ]
  ]
