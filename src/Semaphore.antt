-- ===== src/Semaphore.antt =====
-- What src/queue.rs and src/gateway.rs use of tokio's `Semaphore`, which is a parameter: its
-- operations, and the laws that its documentation and its `Acquire` future state. An owned permit is
-- given back by `release`. A pending `acquire_owned` is known by a number, its ticket.
pub mod Load
pub mod Asks
pub mod Covers
pub mod Fifo
use orihsus.Prelude.{
  ℕ, zero, suc, ◌≤◌, ◌≡◌, Bool, true, false, Option, some, List, [], ◌∷◌, ◌++◌, any, ◌==◌,
  if◌then◌else◌, Result, ok, err,
}

pub data TryAcquireError : Type 0 where
  semaphore_closed no_permits : TryAcquireError

-- A poll of `acquire_owned`: a permit, the error of a closed semaphore, or not yet.
pub data Polled (S : Type 0) : Type 0 where
  ready : S → Polled S
  shut_out : Polled S
  not_yet : S → Polled S

pub record SemaphoreOps (S : Type 0) : Type 0 where
  -- `Semaphore::MAX_PERMITS`, and `Semaphore::new`, which panics above it.
  pub max_permits : ℕ
  pub new_semaphore : ℕ → Option S
  pub try_acquire : S → Result S TryAcquireError
  -- `acquire_owned`: its first poll, a later one, and its drop while it is pending.
  pub start_acquire : S → ℕ → Polled S
  pub poll_acquire : S → ℕ → Polled S
  pub drop_acquire : S → ℕ → S
  pub release : S → S
  pub shut : S → S
  pub is_shut : S → Bool
  pub available : S → ℕ

abbrev pub is_in : ℕ → List ℕ → Bool
is_in k ks = any (λ j. j == k) ks

-- Without the first that is equal.
abbrev pub remove : ℕ → List ℕ → List ℕ
remove k [] = []
remove k (j ∷ js) = let rest = remove k js in if j == k then js else j ∷ rest

-- The semaphore is fair: those that wait stand in line, and a permit that comes back is handed to the
-- first of them, who holds it from then on, polled or not; only without a line is it available again.
-- Closing it sends the line away, stops acquisitions, and is for good.
pub record SemaphoreLaws {S : Type 0} (ops : SemaphoreOps S) : Type 0 where
  -- The tickets in line, the first in front, and those that a permit was handed to.
  pub line : S → List ℕ
  pub handed : S → List ℕ
  pub new_law :
      (n : ℕ)
      → n ≤ ops.max_permits
      → (s : S) × (ops.new_semaphore n ≡ some s)
        × (ops.available s ≡ n)
        × (ops.is_shut s ≡ false)
        × (line s ≡ [])
        × (handed s ≡ [])
  pub try_shut : (s : S) → ops.is_shut s ≡ true → ops.try_acquire s ≡ err semaphore_closed
  pub try_empty :
      (s : S) → ops.is_shut s ≡ false → ops.available s ≡ 0 → ops.try_acquire s ≡ err no_permits
  pub try_some :
      (s : S) (n : ℕ)
      → ops.is_shut s ≡ false
      → ops.available s ≡ suc n
      → (s' : S) × (ops.try_acquire s ≡ ok s')
        × (ops.available s' ≡ n)
        × (ops.is_shut s' ≡ false)
        × (line s' ≡ line s)
        × (handed s' ≡ handed s)
  pub start_shut : (s : S) (k : ℕ) → ops.is_shut s ≡ true → ops.start_acquire s k ≡ shut_out
  pub start_some :
      (s : S) (k n : ℕ)
      → ops.is_shut s ≡ false
      → ops.available s ≡ suc n
      → (s' : S) × (ops.start_acquire s k ≡ ready s')
        × (ops.available s' ≡ n)
        × (ops.is_shut s' ≡ false)
        × (line s' ≡ line s)
        × (handed s' ≡ handed s)
  pub start_empty :
      (s : S) (k : ℕ)
      → ops.is_shut s ≡ false
      → ops.available s ≡ 0
      → (s' : S) × (ops.start_acquire s k ≡ not_yet s')
        × (ops.available s' ≡ 0)
        × (ops.is_shut s' ≡ false)
        × (line s' ≡ line s ++ k ∷ [])
        × (handed s' ≡ handed s)
  pub poll_shut : (s : S) (k : ℕ) → ops.is_shut s ≡ true → ops.poll_acquire s k ≡ shut_out
  pub poll_handed :
      (s : S) (k : ℕ)
      → ops.is_shut s ≡ false
      → is_in k (handed s) ≡ true
      → (s' : S) × (ops.poll_acquire s k ≡ ready s')
        × (ops.available s' ≡ ops.available s)
        × (ops.is_shut s' ≡ false)
        × (line s' ≡ line s)
        × (handed s' ≡ remove k (handed s))
  pub poll_some :
      (s : S) (k n : ℕ)
      → ops.is_shut s ≡ false
      → is_in k (handed s) ≡ false
      → ops.available s ≡ suc n
      → (s' : S) × (ops.poll_acquire s k ≡ ready s')
        × (ops.available s' ≡ n)
        × (ops.is_shut s' ≡ false)
        × (line s' ≡ remove k (line s))
        × (handed s' ≡ handed s)
  pub poll_empty :
      (s : S) (k : ℕ)
      → ops.is_shut s ≡ false
      → is_in k (handed s) ≡ false
      → ops.available s ≡ 0
      → ops.poll_acquire s k ≡ not_yet s
  pub release_free :
      (s : S)
      → line s ≡ []
      → (ops.available (ops.release s) ≡ suc (ops.available s))
        × (line (ops.release s) ≡ [])
        × (handed (ops.release s) ≡ handed s)
  pub release_first :
      (s : S) (j : ℕ) (js : List ℕ)
      → line s ≡ j ∷ js
      → (ops.available (ops.release s) ≡ ops.available s)
        × (line (ops.release s) ≡ js)
        × (handed (ops.release s) ≡ j ∷ handed s)
  pub release_shut : (s : S) → ops.is_shut (ops.release s) ≡ ops.is_shut s
  pub drop_handed_free :
      (s : S) (k : ℕ)
      → is_in k (handed s) ≡ true
      → line s ≡ []
      → (ops.available (ops.drop_acquire s k) ≡ suc (ops.available s))
        × (line (ops.drop_acquire s k) ≡ [])
        × (handed (ops.drop_acquire s k) ≡ remove k (handed s))
  pub drop_handed_first :
      (s : S) (k j : ℕ) (js : List ℕ)
      → is_in k (handed s) ≡ true
      → line s ≡ j ∷ js
      → (ops.available (ops.drop_acquire s k) ≡ ops.available s)
        × (line (ops.drop_acquire s k) ≡ js)
        × (handed (ops.drop_acquire s k) ≡ j ∷ remove k (handed s))
  pub drop_waiting :
      (s : S) (k : ℕ)
      → is_in k (handed s) ≡ false
      → (ops.available (ops.drop_acquire s k) ≡ ops.available s)
        × (line (ops.drop_acquire s k) ≡ remove k (line s))
        × (handed (ops.drop_acquire s k) ≡ handed s)
  pub drop_shut : (s : S) (k : ℕ) → ops.is_shut (ops.drop_acquire s k) ≡ ops.is_shut s
  pub shut_available : (s : S) → ops.available (ops.shut s) ≡ ops.available s
  pub shut_line : (s : S) → line (ops.shut s) ≡ []
  pub shut_handed : (s : S) → handed (ops.shut s) ≡ handed s
  pub shut_shut : (s : S) → ops.is_shut (ops.shut s) ≡ true
