-- ===== src/Semaphore/Fifo.antt =====
-- A semaphore as a count of permits, a mark, its line and those it has handed a permit to: the
-- operations that the laws are stated for exist.
use orihsus.Prelude.{
  ℕ, zero, suc, ◌≡◌, refl, Bool, true, false, none, some, List, [], ◌∷◌, ◌++◌, Result, ok, err, leb,
  if◌then◌else◌, arith, Bool-cases, inl, inr,
}
use orihsus.Semaphore.{
  TryAcquireError, semaphore_closed, no_permits, Polled, ready, shut_out, not_yet, SemaphoreOps,
  SemaphoreLaws, is_in, remove,
}

pub record Fifo : Type 0 where
  pub permits : ℕ
  pub closed : Bool
  pub waiting : List ℕ
  pub given : List ℕ

abbrev try_permit : Fifo → ℕ → Result Fifo TryAcquireError
try_permit s zero = err no_permits
try_permit s (suc n) = ok (record s { permits = n })

abbrev start_permit : Fifo → ℕ → ℕ → Polled Fifo
start_permit s k zero = not_yet (record s { waiting = s.waiting ++ k ∷ [] })
start_permit s k (suc n) = ready (record s { permits = n })

abbrev poll_permit : Fifo → ℕ → ℕ → Polled Fifo
poll_permit s k zero = not_yet s
poll_permit s k (suc n) = ready (record s { permits = n; waiting = remove k s.waiting })

-- A permit for the first in line, or for anyone.
abbrev give : Fifo → List ℕ → Fifo
give s [] = record s { permits = suc s.permits }
give s (j ∷ js) = record s { waiting = js; given = j ∷ s.given }

abbrev dropped : Fifo → ℕ → Fifo
dropped s k =
    let without : Fifo = record s { given = remove k s.given } in
    if is_in k s.given then give without s.waiting else record s { waiting = remove k s.waiting }

abbrev pub fifo : ℕ → SemaphoreOps Fifo
fifo most = record {
  max_permits = most;
  new_semaphore = λ n.
      if leb n most
      then some (record { permits = n; closed = false; waiting = []; given = [] })
      else none;
  try_acquire = λ s. if s.closed then err semaphore_closed else try_permit s s.permits;
  start_acquire = λ s k. if s.closed then shut_out else start_permit s k s.permits;
  poll_acquire = λ s k.
      if s.closed
      then shut_out
      else if is_in k s.given
      then ready (record s { given = remove k s.given })
      else poll_permit s k s.permits;
  drop_acquire = dropped;
  release = λ s. give s s.waiting;
  shut = λ s. record s { closed = true; waiting = [] };
  is_shut = λ s. s.closed;
  available = λ s. s.permits;
}

give-closed : (s : Fifo) (js : List ℕ) → (give s js).closed ≡ s.closed
give-closed s [] = refl
give-closed s (j ∷ js) = refl

dropped-closed : (s : Fifo) (k : ℕ) → (dropped s k).closed ≡ s.closed
dropped-closed s k = elim (Bool-cases (is_in k s.given)) [
  | inl has ↦ rw has (give-closed (record s { given = remove k s.given }) s.waiting)
  | inr hasnt ↦ rw hasnt refl
]

pub fifo_laws : (most : ℕ) → SemaphoreLaws (fifo most)
fifo_laws most = record {
  line = λ s. s.waiting;
  handed = λ s. s.given;
  new_law = λ n fits. (
    record { permits = n; closed = false; waiting = []; given = [] },
    ground arith,
    refl,
    refl,
    refl,
    refl,
  );
  try_shut = λ s h. rw h refl;
  try_empty = λ s opened none_left. rw (opened, none_left) refl;
  try_some = λ s n opened left.
      (record s { permits = n }, rw (opened, left) refl, refl, opened, refl, refl);
  start_shut = λ s k h. rw h refl;
  start_some = λ s k n opened left.
      (record s { permits = n }, rw (opened, left) refl, refl, opened, refl, refl);
  start_empty = λ s k opened none_left. (
    record s { waiting = s.waiting ++ k ∷ [] },
    rw (opened, none_left) refl,
    none_left,
    opened,
    refl,
    refl,
  );
  poll_shut = λ s k h. rw h refl;
  poll_handed = λ s k opened has.
      (record s { given = remove k s.given }, rw (opened, has) refl, refl, opened, refl, refl);
  poll_some = λ s k n opened hasnt left. (
    record s { permits = n; waiting = remove k s.waiting },
    rw (opened, hasnt, left) refl,
    refl,
    opened,
    refl,
    refl,
  );
  poll_empty = λ s k opened hasnt none_left. rw (opened, hasnt, none_left) refl;
  release_free = λ s empty. rw empty (refl, refl, refl);
  release_first = λ s j js front. rw front (refl, refl, refl);
  release_shut = λ s. give-closed s s.waiting;
  drop_handed_free = λ s k has empty. rw (has, empty) (refl, refl, refl);
  drop_handed_first = λ s k j js has front. rw (has, front) (refl, refl, refl);
  drop_waiting = λ s k hasnt. rw hasnt (refl, refl, refl);
  drop_shut = λ s k. dropped-closed s k;
  shut_available = λ s. refl;
  shut_line = λ s. refl;
  shut_handed = λ s. refl;
  shut_shut = λ s. refl;
}

pub line_lem : (most : ℕ) (s : Fifo) → (fifo_laws most).line s ≡ s.waiting
unfolding fifo_laws
line_lem most s = refl

pub handed_lem : (most : ℕ) (s : Fifo) → (fifo_laws most).handed s ≡ s.given
unfolding fifo_laws
handed_lem most s = refl
