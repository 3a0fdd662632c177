-- ===== src/Queue/Accounted.antt =====
-- The permits and slots of src/queue.rs are accounted for through every event.
use mathlib.Core.Path.{subst}
use orihsus.Prelude.{
  ℕ, zero, suc, ◌+◌, ◌≤◌, ◌<◌, ◌≡◌, refl, sym, ap, ◌∙◌, inl, inr, Bool, true, false, some, List, [],
  ◌∷◌, length, Bool-cases, arith,
}
use orihsus.Semaphore.{SemaphoreOps, SemaphoreLaws, is_in, remove}
use orihsus.Semaphore.Load.{
  length-remove, load, IsFair, release-load, release-IsFair, drop-load, drop-IsFair,
}
use orihsus.Semaphore.Asks.{no_line}
use orihsus.Semaphore.Covers.{Covers, count}
use orihsus.Queue.{
  AdmissionQueue, Acquired, Waited, new_queue, acquire, abandon, poll_waiter, close,
}
use orihsus.Queue.Traffic.{
  Traffic, Event, arrive, finish, cancel, shut_down, poll, after_arrival, after_poll, give_back,
  drop_waiter, poll_one, step, run,
}
use orihsus.Queue.Answers.{acquire_cases, waiter_cases, left_with}

-- The requests with a place in the queue.
abbrev pub queued_count : {S : Type 0} → Traffic S → ℕ
queued_count t = length t.arrived + length t.waiting

module _ {S : Type 0} (ops : SemaphoreOps S) (laws : SemaphoreLaws ops) where
  -- The permits that were handed to a waiter which was not polled since.
  abbrev pub handed_count : Traffic S → ℕ
  handed_count t = length (laws.handed t.queue.concurrency)

  -- The permits that are out and those that are left are all permits, none stands in line for a
  -- permit while one is available or for a slot at all, and the two semaphores are open or closed
  -- together.
  pub record Accounted (t : Traffic S) : Type 0 where
    pub running : t.held + load ops laws t.queue.concurrency ≡ t.queue.max_concurrency
    pub in_queue : queued_count t + ops.available t.queue.queue_slots ≡ t.queue.max_queue
    pub fair : IsFair ops laws t.queue.concurrency
    pub slots_line : laws.line t.queue.queue_slots ≡ []
    pub together : ops.is_shut t.queue.queue_slots ≡ ops.is_shut t.queue.concurrency

  same-IsFair :
      (s s' : S) (n : ℕ)
      → ops.available s ≡ suc n
      → laws.line s' ≡ laws.line s
      → IsFair ops laws s
      → IsFair ops laws s'
  same-IsFair s s' n left in_line f = inl (in_line ∙ no_line ops laws s n left f)

  arrival-Accounted :
      (t : Traffic S) → Accounted t → Accounted (after_arrival ops t (acquire ops t.queue))
  unfolding after_arrival
  arrival-Accounted t a = elim (acquire_cases ops laws t.queue) [
    | inl (shut, gone) ↦ subst After (sym gone) a
    | inr (inl (s', got, opened, still, left, in_line, same)) ↦ subst After (sym got) (record {
      running = omega (arith, left, ap length same, a.running);
      in_queue = a.in_queue;
      fair = same-IsFair t.queue.concurrency s' (ops.available s') left in_line a.fair;
      slots_line = a.slots_line;
      together = a.together ∙ opened ∙ sym still;
    })
    | inr (inr (opened, none_left, inl (shut, gone))) ↦ subst After (sym gone) a
    | inr (inr (opened, none_left, inr (inl (no_slots, gone)))) ↦ subst After (sym gone) a
    | inr (inr (opened, none_left, inr (inr (s', waits, still, left, in_line)))) ↦
        subst After (sym waits) (record {
          running = a.running;
          in_queue = omega (arith, left, a.in_queue);
          fair = a.fair;
          slots_line = in_line ∙ a.slots_line;
          together = still ∙ sym opened;
        })
  ]
    where
      After : Acquired S → Type 0
      After r = Accounted (after_arrival ops t r)

  give_back-Accounted :
      (t : Traffic S) (n : ℕ) → t.held ≡ n → Accounted t → Accounted (give_back ops t n)
  unfolding give_back
  give_back-Accounted t zero h a = a
  give_back-Accounted t (suc n) h a = record {
    running = omega (arith, h, a.running, release-load ops laws t.queue.concurrency);
    in_queue = a.in_queue;
    fair = release-IsFair ops laws t.queue.concurrency a.fair;
    slots_line = a.slots_line;
    together = a.together ∙ sym (laws.release_shut t.queue.concurrency);
  }

  -- A waiter fewer, its slot given back, with a semaphore that has the permits it had.
  leaves :
      (t t' : Traffic S) (s : S)
      → suc (queued_count t') ≡ queued_count t
      → t'.held + load ops laws s ≡ t.held + load ops laws t.queue.concurrency
      → (IsFair ops laws t.queue.concurrency → IsFair ops laws s)
      → ops.is_shut s ≡ ops.is_shut t.queue.concurrency
      → t'.queue ≡ left_with ops laws t.queue s
      → Accounted t
      → Accounted t'
  leaves t t' s one_less permits fair shut out a =
      let (more, no_one, _) = laws.release_free t.queue.queue_slots a.slots_line in
      record {
        running =
            ap (λ q. t'.held + load ops laws q.concurrency) out
            ∙ permits
            ∙ a.running
            ∙ ap (λ q. q.max_concurrency) (sym out);
        in_queue =
            ap (λ q. queued_count t' + ops.available q.queue_slots) out
            ∙ omega (arith, more, one_less, a.in_queue)
            ∙ ap (λ q. q.max_queue) (sym out);
        fair = subst (λ q. IsFair ops laws q.concurrency) (sym out) (fair a.fair);
        slots_line = ap (λ q. laws.line q.queue_slots) out ∙ no_one;
        together =
            ap (λ q. ops.is_shut q.queue_slots) out
            ∙ laws.release_shut t.queue.queue_slots
            ∙ a.together
            ∙ sym shut
            ∙ ap (λ q. ops.is_shut q.concurrency) (sym out);
      }

  drop_waiter-Accounted :
      (t : Traffic S) (k : ℕ)
      → is_in k t.waiting ≡ true
      → Accounted t
      → Accounted (drop_waiter ops t k)
  unfolding drop_waiter abandon
  drop_waiter-Accounted t k has a =
      let c = t.queue.concurrency in
      leaves t (drop_waiter ops t k) (ops.drop_acquire c k)
        (omega (arith, length-remove k t.waiting has))
        (ap (λ n. t.held + n) (drop-load ops laws c k)) (drop-IsFair ops laws c k)
        (laws.drop_shut c k) refl a

  -- `rest` is `t` without the request that is polled.
  polled-Accounted :
      (t rest : Traffic S) (k : ℕ) (started elapsed : Bool)
      → suc (queued_count rest) ≡ queued_count t
      → rest.queue ≡ t.queue
      → rest.held ≡ t.held
      → Accounted t
      → Accounted (after_poll ops rest k (poll_waiter ops t.queue k started elapsed))
  unfolding after_poll
  polled-Accounted t rest k started elapsed one_less same_queue same_held a =
      elim (waiter_cases ops laws t.queue k started elapsed) [
        | inl (s, waits, kept) ↦ subst After (sym waits) (record {
          running = omega (arith, kept.same, same_held, a.running);
          in_queue = omega (arith, one_less, a.in_queue);
          fair = kept.fair a.fair;
          slots_line = a.slots_line;
          together = a.together ∙ sym kept.shut;
        })
        | inr (inl (s, e, out, kept)) ↦
            subst After (sym out) (
              leaves t _ s one_less (omega (arith, kept.same, same_held)) kept.fair kept.shut refl
                a)
        | inr (inr (s, entered, taken)) ↦ subst After (sym entered) (
            leaves t _ s one_less (omega (arith, taken.fewer, same_held)) taken.fair taken.shut refl
              a)
      ]
    where
      After : Waited S → Type 0
      After r = Accounted (after_poll ops rest k r)

  poll_one-Accounted :
      (t : Traffic S) (k : ℕ) (elapsed : Bool) → Accounted t → Accounted (poll_one ops t k elapsed)
  unfolding poll_one
  poll_one-Accounted t k elapsed a = elim (Bool-cases (is_in k t.arrived)) [
    | inl new ↦
        rw (new, poll_one)
          (polled-Accounted t (record t { arrived = remove k t.arrived }) k false elapsed
            (omega (arith, length-remove k t.arrived new)) refl refl a)
    | inr old ↦ elim (Bool-cases (is_in k t.waiting)) [
      | inl has ↦
          rw (old, has, poll_one)
            (polled-Accounted t (record t { waiting = remove k t.waiting }) k true elapsed
              (omega (arith, length-remove k t.waiting has)) refl refl a)
      | inr hasnt ↦ rw (old, hasnt, poll_one) a
    ]
  ]

  shut_down-Accounted :
      (t : Traffic S) → Accounted t → Accounted (record t { queue = close ops t.queue })
  unfolding close
  shut_down-Accounted t a =
      let c = t.queue.concurrency in
      record {
        running = omega (arith, a.running, laws.shut_available c, ap length (laws.shut_handed c));
        in_queue = omega (arith, a.in_queue, laws.shut_available t.queue.queue_slots);
        fair = inl (laws.shut_line c);
        slots_line = laws.shut_line t.queue.queue_slots;
        together = laws.shut_shut t.queue.queue_slots ∙ sym (laws.shut_shut c);
      }

  step-Accounted : (t : Traffic S) (e : Event) → Accounted t → Accounted (step ops t e)
  unfolding step
  step-Accounted t arrive a = arrival-Accounted t a
  step-Accounted t finish a = give_back-Accounted t t.held refl a
  step-Accounted t (cancel k) a = elim (Bool-cases (is_in k t.waiting)) [
    | inl has ↦ rw (has, step) (drop_waiter-Accounted t k has a)
    | inr hasnt ↦ rw (hasnt, step) a
  ]
  step-Accounted t shut_down a = shut_down-Accounted t a
  step-Accounted t (poll k elapsed) a = poll_one-Accounted t k elapsed a

  pub run-Accounted : (t : Traffic S) (es : List Event) → Accounted t → Accounted (run ops t es)
  unfolding run
  run-Accounted t [] a = a
  run-Accounted t (e ∷ es) a = run-Accounted (step ops t e) es (step-Accounted t e a)

  -- A queue that `new` builds has every permit and place free, and none in line.
  pub new_queue-Accounted :
      (max_concurrency max_queue wait_timeout : ℕ)
      → 0 < max_concurrency
      → 0 < wait_timeout
      → max_concurrency ≤ ops.max_permits
      → max_queue ≤ ops.max_permits
      → (q : AdmissionQueue S) × (new_queue ops max_concurrency max_queue wait_timeout ≡ some q)
        × Accounted (record { queue = q; held = 0; arrived = []; waiting = []; next_ticket = 0 })
        × Covers ops laws q.concurrency []
  unfolding new_queue
  new_queue-Accounted max_concurrency max_queue wait_timeout some_request some_wait fits
        queue_fits =
      let (c, c_new, c_all, c_open, c_line, c_handed) = laws.new_law max_concurrency fits in
      let (s, s_new, s_all, s_open, s_line, s_handed) = laws.new_law max_queue queue_fits in
      (
        record {
          concurrency = c;
          queue_slots = s;
          max_concurrency = max_concurrency;
          max_queue = max_queue;
          wait_timeout = wait_timeout;
        },
        ground (arith, c_new, s_new),
        record {
          running = omega (arith, c_all, ap length c_handed);
          in_queue = omega (arith, s_all);
          fair = inl c_line;
          slots_line = s_line;
          together = s_open ∙ sym c_open;
        },
        λ j. omega (arith, ap (count j) c_line, ap (count j) c_handed),
      )
