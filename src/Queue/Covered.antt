-- ===== src/Queue/Covered.antt =====
-- Who stands in line for a permit of src/queue.rs or was handed one is a request that waits.
use mathlib.Core.Path.{subst}
use orihsus.Prelude.{
  ℕ, zero, suc, ◌+◌, ◌≤◌, ◌≡◌, sym, ap, inl, inr, Bool, true, false, List, [], ◌∷◌, Bool-cases,
  arith,
}
use orihsus.Semaphore.{not_yet, SemaphoreOps, SemaphoreLaws, is_in, remove}
use orihsus.Semaphore.Covers.{
  hits, count, count-remove, places, Covers, release-places, drop-places, start_places, poll_places,
}
use orihsus.Queue.{
  AdmissionQueue, Acquired, Waited, admitted, gave_up, pending, acquire, ask, abandon, poll_waiter,
  close,
}
use orihsus.Queue.Traffic.{
  Traffic, Event, arrive, finish, cancel, shut_down, poll, after_arrival, after_poll, give_back,
  drop_waiter, poll_one, step, run,
}
use orihsus.Queue.Answers.{acquire_cases}

-- The tickets that wait, without a polled one if it did.
abbrev rest_of : List ℕ → ℕ → Bool → List ℕ
rest_of ws k true = remove k ws
rest_of ws k false = ws

module _ {S : Type 0} (ops : SemaphoreOps S) (laws : SemaphoreLaws ops) where
  abbrev pub Covered : Traffic S → Type 0
  Covered t = Covers ops laws t.queue.concurrency t.waiting

  arrival-Covered :
      (t : Traffic S) → Covered t → Covered (after_arrival ops t (acquire ops t.queue))
  unfolding after_arrival
  arrival-Covered t c = elim (acquire_cases ops laws t.queue) [
    | inl (shut, gone) ↦ subst After (sym gone) c
    | inr (inl (s', got, opened, still, left, in_line, same)) ↦
        subst After (sym got) (λ j. omega (arith, ap (count j) in_line, ap (count j) same, c j))
    | inr (inr (opened, none_left, inl (shut, gone))) ↦ subst After (sym gone) c
    | inr (inr (opened, none_left, inr (inl (no_slots, gone)))) ↦ subst After (sym gone) c
    | inr (inr (opened, none_left, inr (inr (s', waits, still, left, in_line)))) ↦
        subst After (sym waits) c
  ]
    where
      After : Acquired S → Type 0
      After r = Covered (after_arrival ops t r)

  give_back-Covered : (t : Traffic S) (n : ℕ) → Covered t → Covered (give_back ops t n)
  unfolding give_back
  give_back-Covered t zero c = c
  give_back-Covered t (suc n) c =
      λ j. omega (arith, release-places ops laws j t.queue.concurrency, c j)

  drop_waiter-Covered : (t : Traffic S) (k : ℕ) → Covered t → Covered (drop_waiter ops t k)
  unfolding drop_waiter abandon
  drop_waiter-Covered t k c = λ j.
      omega (arith, drop-places ops laws j k t.queue.concurrency, count-remove j k t.waiting, c j)

  -- What a poll leaves to cover: the polled ticket too if it is pending.
  abbrev Leaves : List ℕ → ℕ → Waited S → Type 0
  Leaves rest k (admitted q) = Covers ops laws q.concurrency rest
  Leaves rest k (gave_up e q) = Covers ops laws q.concurrency rest
  Leaves rest k (pending q) = Covers ops laws q.concurrency (k ∷ rest)

  late_or_pending :
      (q : AdmissionQueue S) (s : S) (k : ℕ) (started elapsed : Bool) (rest : List ℕ)
      → ask ops q.concurrency k started ≡ not_yet s
      → ((j : ℕ) → places ops laws j s ≤ hits j k + count j rest)
      → Leaves rest k (poll_waiter ops q k started elapsed)
  unfolding poll_waiter abandon
  late_or_pending q s k started true rest waits fits =
      rw (waits, poll_waiter) (λ j. omega (arith, drop-places ops laws j k s, fits j))
  late_or_pending q s k started false rest waits fits = rw (waits, poll_waiter) fits

  poll_waiter-Leaves :
      (q : AdmissionQueue S) (k : ℕ) (started elapsed : Bool) (ws : List ℕ)
      → Covers ops laws q.concurrency ws
      → Leaves (rest_of ws k started) k (poll_waiter ops q k started elapsed)
  unfolding poll_waiter ask abandon
  poll_waiter-Leaves q k true elapsed ws c = elim (poll_places ops laws q.concurrency k) [
    | inl shut ↦
        rw (shut, poll_waiter, ask)
          (λ j. omega (arith, drop-places ops laws j k q.concurrency, count-remove j k ws, c j))
    | inr (inl (s, took, fewer)) ↦
        rw (took, poll_waiter, ask) (λ j. omega (arith, fewer j, count-remove j k ws, c j))
    | inr (inr (s, waits, same)) ↦
        late_or_pending q s k true elapsed (remove k ws) waits
          (λ j. omega (arith, same j, count-remove j k ws, c j))
  ]
  poll_waiter-Leaves q k false elapsed ws c = elim (start_places ops laws q.concurrency k) [
    | inl shut ↦ rw (shut, poll_waiter, ask) c
    | inr (inl (s, took, same)) ↦ rw (took, poll_waiter, ask) (λ j. omega (arith, same j, c j))
    | inr (inr (s, waits, more)) ↦
        late_or_pending q s k false elapsed ws waits (λ j. omega (arith, more j, c j))
  ]

  after_poll-Covered :
      (t : Traffic S) (k : ℕ) (r : Waited S) → Leaves t.waiting k r → Covered (after_poll ops t k r)
  unfolding after_poll
  after_poll-Covered t k (admitted q) left = left
  after_poll-Covered t k (gave_up e q) left = left
  after_poll-Covered t k (pending q) left = left

  poll_one-Covered :
      (t : Traffic S) (k : ℕ) (elapsed : Bool) → Covered t → Covered (poll_one ops t k elapsed)
  unfolding poll_one
  poll_one-Covered t k elapsed c = elim (Bool-cases (is_in k t.arrived)) [
    | inl new ↦
        rw (new, poll_one)
          (after_poll-Covered (record t { arrived = remove k t.arrived }) k _
            (poll_waiter-Leaves t.queue k false elapsed t.waiting c))
    | inr old ↦ elim (Bool-cases (is_in k t.waiting)) [
      | inl has ↦
          rw (old, has, poll_one)
            (after_poll-Covered (record t { waiting = remove k t.waiting }) k _
              (poll_waiter-Leaves t.queue k true elapsed t.waiting c))
      | inr hasnt ↦ rw (old, hasnt, poll_one) c
    ]
  ]

  step-Covered : (t : Traffic S) (e : Event) → Covered t → Covered (step ops t e)
  unfolding step close
  step-Covered t arrive c = arrival-Covered t c
  step-Covered t finish c = give_back-Covered t t.held c
  step-Covered t (cancel k) c = elim (Bool-cases (is_in k t.waiting)) [
    | inl has ↦ rw (has, step) (drop_waiter-Covered t k c)
    | inr hasnt ↦ rw (hasnt, step) c
  ]
  step-Covered t shut_down c = λ j. omega (
    arith,
    ap (count j) (laws.shut_line t.queue.concurrency),
    ap (count j) (laws.shut_handed t.queue.concurrency),
    c j,
  )
  step-Covered t (poll k elapsed) c = poll_one-Covered t k elapsed c

  pub run-Covered : (t : Traffic S) (es : List Event) → Covered t → Covered (run ops t es)
  unfolding run
  run-Covered t [] c = c
  run-Covered t (e ∷ es) c = run-Covered (step ops t e) es (step-Covered t e c)
