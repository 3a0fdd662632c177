-- ===== src/Semaphore/Covers.antt =====
-- Who a semaphore keeps: each ticket stands in line or was handed a permit at most as often as it is
-- in a list, whatever `acquire_owned` does.
use mathlib.Core.Bool.{false≢true}
use orihsus.Prelude.{
  ℕ, ◌+◌, ◌-◌, ◌≤◌, ◌≡◌, refl, sym, ap, ◌∙◌, ◌⊎◌, inl, inr, true, false, List, [], ◌∷◌, ◌++◌, ◌==◌,
  if◌then◌else◌, Bool-cases, length, arith,
}
use orihsus.Semaphore.{ready, shut_out, not_yet, SemaphoreOps, SemaphoreLaws, is_in, remove}
use orihsus.Semaphore.Load.{ℕ-cases, List-cases, length-remove}

abbrev pub hits : ℕ → ℕ → ℕ
hits j k = if k == j then 1 else 0

abbrev pub count : ℕ → List ℕ → ℕ
count j [] = 0
count j (k ∷ ks) = hits j k + count j ks

pub count-remove : (j k : ℕ) (ks : List ℕ) → count j (remove k ks) ≡ count j ks - hits j k
count-remove j k [] = omega arith
count-remove j k (i ∷ is) =
    let below = count-remove j k is in
    elim (Bool-cases (i == k)) [
      | inl same ↦ rw same (ground (arith, below))
      | inr other ↦ rw other (ground (arith, below))
    ]

count-append : (j k : ℕ) (ks : List ℕ) → count j (ks ++ k ∷ []) ≡ count j ks + hits j k
count-append j k [] = omega arith
count-append j k (i ∷ is) = omega (arith, count-append j k is)

self_hit : (k : ℕ) → (k == k) ≡ true
self_hit k = ground arith

head-in : (k : ℕ) (ks : List ℕ) → is_in k (k ∷ ks) ≡ true
head-in k ks = rw (self_hit k) refl

hits-count : (j k : ℕ) (ks : List ℕ) → is_in k ks ≡ true → hits j k ≤ count j ks
hits-count j k [] has = cc
hits-count j k (i ∷ is) has = elim (Bool-cases (i == k)) [
  | inl same ↦ ground (arith, same)
  | inr other ↦ let below = hits-count j k is (rw other at has) in omega (arith, below)
]

count-in : (k : ℕ) (ks : List ℕ) → is_in k ks ≡ true → 1 ≤ count k ks
count-in k ks has = let one = hits-count k k ks has in rw (self_hit k) at one

count-out : (k : ℕ) (ks : List ℕ) → is_in k ks ≡ false → count k ks ≡ 0
count-out k [] hasnt = refl
count-out k (j ∷ js) hasnt = elim (Bool-cases (j == k)) [
  | inl same ↦ absurd (false≢true (sym (rw same at hasnt)))
  | inr other ↦ rw other (let below = count-out k js (rw other at hasnt) in omega (arith, below))
]

out : (j k : ℕ) (ks : List ℕ) → is_in k ks ≡ false → (hits j k ≡ 0) ⊎ (count j ks ≡ 0)
out j k ks hasnt = elim (Bool-cases (k == j)) [
  | inl same ↦
      let eq : k ≡ j = ground arith in inr (ap (λ i. count i ks) (sym eq) ∙ count-out k ks hasnt)
  | inr other ↦ inl (rw other refl)
]

pub within-in :
    (k : ℕ) (ks ws : List ℕ) → count k ks ≤ count k ws → is_in k ks ≡ true → is_in k ws ≡ true
within-in k ks ws fewer has = elim (Bool-cases (is_in k ws)) [
  | inl there ↦ there
  | inr absent ↦ absurd (too_few (omega (arith, fewer, count-in k ks has, count-out k ws absent)))
]
  where
    too_few : 1 ≤ 0 → ⊥
    too_few h = omega (arith, h)

pub within-length : (ks ws : List ℕ) → ((j : ℕ) → count j ks ≤ count j ws) → length ks ≤ length ws
within-length [] ws fewer = omega arith
within-length (k ∷ ks) ws fewer =
    let there = within-in k (k ∷ ks) ws (fewer k) (head-in k ks) in
    let rest = within-length ks (remove k ws) (λ j. omega (arith, fewer j, count-remove j k ws)) in
    omega (arith, rest, length-remove k ws there)

module _ {S : Type 0} (ops : SemaphoreOps S) (laws : SemaphoreLaws ops) where
  abbrev pub places : ℕ → S → ℕ
  places j s = count j (laws.line s) + count j (laws.handed s)

  abbrev pub Covers : S → List ℕ → Type 0
  Covers s ws = (j : ℕ) → places j s ≤ count j ws

  pub release-places : (j : ℕ) (s : S) → places j (ops.release s) ≡ places j s
  release-places j s = elim (List-cases (laws.line s)) [
    | inl empty ↦
        let (_, no_one, same) = laws.release_free s empty in
        omega (arith, ap (count j) empty, ap (count j) no_one, ap (count j) same)
    | inr (i, is, front) ↦
        let (_, rest, more) = laws.release_first s i is front in
        omega (arith, ap (count j) front, ap (count j) rest, ap (count j) more)
  ]

  pub drop-places : (j k : ℕ) (s : S) → places j (ops.drop_acquire s k) ≡ places j s - hits j k
  drop-places j k s = elim (Bool-cases (is_in k (laws.handed s))) [
    | inr hasnt ↦
        let (_, rest, same) = laws.drop_waiting s k hasnt in
        let fewer = count-remove j k (laws.line s) in
        elim (out j k (laws.handed s) hasnt) [
          | inl other ↦ omega (arith, ap (count j) rest, ap (count j) same, fewer, other)
          | inr nowhere ↦ omega (arith, ap (count j) rest, ap (count j) same, fewer, nowhere)
        ]
    | inl has ↦
        let fewer = count-remove j k (laws.handed s) in
        let enough = hits-count j k (laws.handed s) has in
        elim (List-cases (laws.line s)) [
          | inl empty ↦
              let (_, no_one, rest) = laws.drop_handed_free s k has empty in
              omega
                (arith, ap (count j) empty, ap (count j) no_one, ap (count j) rest, fewer, enough)
          | inr (i, is, front) ↦
              let (_, behind, rest) = laws.drop_handed_first s k i is has front in
              omega
                (arith, ap (count j) front, ap (count j) behind, ap (count j) rest, fewer, enough)
        ]
  ]

  -- After the first poll: nothing changes with a permit, and a pending one stands in line.
  pub start_places :
      (s : S) (k : ℕ)
      → (ops.start_acquire s k ≡ shut_out)
        ⊎ (((s' : S) × (ops.start_acquire s k ≡ ready s') × ((j : ℕ) → places j s' ≡ places j s))
            ⊎ ((s' : S) × (ops.start_acquire s k ≡ not_yet s')
                × ((j : ℕ) → places j s' ≡ places j s + hits j k)))
  start_places s k = elim (Bool-cases (ops.is_shut s)) [
    | inl shut ↦ inl (laws.start_shut s k shut)
    | inr opened ↦ elim (ℕ-cases (ops.available s)) [
      | inl none_left ↦
          let (s', waits, _, _, longer, same) = laws.start_empty s k opened none_left in
          inr (
            inr (
              s',
              waits,
              λ j.
                  omega
                    (arith, ap (count j) longer, ap (count j) same, count-append j k (laws.line s)),
            ))
      | inr (n, left) ↦
          let (s', took, _, _, in_line, same) = laws.start_some s k n opened left in
          inr (inl (s', took, λ j. omega (arith, ap (count j) in_line, ap (count j) same)))
    ]
  ]

  -- After a later poll: the place is gone with a permit, and a pending one keeps its own.
  pub poll_places :
      (s : S) (k : ℕ)
      → (ops.poll_acquire s k ≡ shut_out)
        ⊎ (((s' : S) × (ops.poll_acquire s k ≡ ready s')
              × ((j : ℕ) → places j s' ≡ places j s - hits j k))
            ⊎ ((s' : S) × (ops.poll_acquire s k ≡ not_yet s')
                × ((j : ℕ) → places j s' ≡ places j s)))
  poll_places s k = elim (Bool-cases (ops.is_shut s)) [
    | inl shut ↦ inl (laws.poll_shut s k shut)
    | inr opened ↦ elim (Bool-cases (is_in k (laws.handed s))) [
      | inl has ↦
          let (s', took, _, _, in_line, rest) = laws.poll_handed s k opened has in
          inr (
            inl (
              s',
              took,
              λ j. omega (
                arith,
                ap (count j) in_line,
                ap (count j) rest,
                count-remove j k (laws.handed s),
                hits-count j k (laws.handed s) has,
              ),
            ))
      | inr hasnt ↦ elim (ℕ-cases (ops.available s)) [
        | inl none_left ↦ inr (inr (s, laws.poll_empty s k opened hasnt none_left, λ j. refl))
        | inr (n, left) ↦
            let (s', took, _, _, in_line, same) = laws.poll_some s k n opened hasnt left in
            inr (inl (s', took, λ j. took_free j k s s' hasnt in_line same))
      ]
    ]
  ]
    where
      took_free :
          (j k : ℕ) (s s' : S)
          → is_in k (laws.handed s) ≡ false
          → laws.line s' ≡ remove k (laws.line s)
          → laws.handed s' ≡ laws.handed s
          → places j s' ≡ places j s - hits j k
      took_free j k s s' hasnt in_line same =
          let fewer = count-remove j k (laws.line s) in
          elim (out j k (laws.handed s) hasnt) [
            | inl other ↦ omega (arith, ap (count j) in_line, ap (count j) same, fewer, other)
            | inr nowhere ↦ omega (arith, ap (count j) in_line, ap (count j) same, fewer, nowhere)
          ]
