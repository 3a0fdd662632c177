-- ===== src/Semaphore/Load.antt =====
-- The permits of a semaphore that no holder has: those available and those handed to one in line.
use orihsus.Prelude.{
  ℕ, zero, suc, ◌+◌, ◌≡◌, refl, ap, ◌∙◌, ◌⊎◌, inl, inr, true, List, [], ◌∷◌, length, ◌==◌,
  Bool-cases, arith,
}
use orihsus.Semaphore.{SemaphoreOps, SemaphoreLaws, is_in, remove}

pub ℕ-cases : (n : ℕ) → (n ≡ 0) ⊎ ((m : ℕ) × (n ≡ suc m))
ℕ-cases zero = inl refl
ℕ-cases (suc n) = inr (n, refl)

pub List-cases : (ks : List ℕ) → (ks ≡ []) ⊎ ((j : ℕ) × (js : List ℕ) × (ks ≡ j ∷ js))
List-cases [] = inl refl
List-cases (j ∷ js) = inr (j, js, refl)

pub length-remove :
    (k : ℕ) (ks : List ℕ) → is_in k ks ≡ true → length ks ≡ suc (length (remove k ks))
length-remove k [] has = cc
length-remove k (j ∷ js) has = elim (Bool-cases (j == k)) [
  | inl same ↦ rw same (omega arith)
  | inr other ↦ rw other (let below = length-remove k js (rw other at has) in omega (arith, below))
]

module _ {S : Type 0} (ops : SemaphoreOps S) (laws : SemaphoreLaws ops) where
  abbrev pub load : S → ℕ
  load s = length (laws.handed s) + ops.available s

  -- None stands in line while a permit is available.
  abbrev pub IsFair : S → Type 0
  IsFair s = (laws.line s ≡ []) ⊎ (ops.available s ≡ 0)

  pub release-load : (s : S) → load (ops.release s) ≡ suc (load s)
  release-load s = elim (List-cases (laws.line s)) [
    | inl empty ↦
        let (more, _, same) = laws.release_free s empty in omega (arith, more, ap length same)
    | inr (j, js, front) ↦
        let (same, _, more) = laws.release_first s j js front in omega (arith, same, ap length more)
  ]

  pub release-IsFair : (s : S) → IsFair s → IsFair (ops.release s)
  release-IsFair s fair = elim (List-cases (laws.line s)) [
    | inl empty ↦ inl (laws.release_free s empty).1
    | inr (j, js, front) ↦ elim fair [
      | inl empty ↦ inl (laws.release_free s empty).1
      | inr none_left ↦ inr ((laws.release_first s j js front).0 ∙ none_left)
    ]
  ]

  pub drop-load : (s : S) (k : ℕ) → load (ops.drop_acquire s k) ≡ load s
  drop-load s k = elim (Bool-cases (is_in k (laws.handed s))) [
    | inr waiting ↦
        let (same, _, still) = laws.drop_waiting s k waiting in omega (arith, same, ap length still)
    | inl has ↦
        let fewer = length-remove k (laws.handed s) has in
        elim (List-cases (laws.line s)) [
          | inl empty ↦
              let (more, _, rest) = laws.drop_handed_free s k has empty in
              omega (arith, more, fewer, ap length rest)
          | inr (j, js, front) ↦
              let (same, _, rest) = laws.drop_handed_first s k j js has front in
              omega (arith, same, fewer, ap length rest)
        ]
  ]

  pub drop-IsFair : (s : S) (k : ℕ) → IsFair s → IsFair (ops.drop_acquire s k)
  drop-IsFair s k fair = elim (Bool-cases (is_in k (laws.handed s))) [
    | inr waiting ↦
        let (same, rest, _) = laws.drop_waiting s k waiting in
        elim fair [
          | inl empty ↦ inl (rest ∙ ap (remove k) empty)
          | inr none_left ↦ inr (same ∙ none_left)
        ]
    | inl has ↦ elim (List-cases (laws.line s)) [
      | inl empty ↦ inl (laws.drop_handed_free s k has empty).1
      | inr (j, js, front) ↦ elim fair [
        | inl empty ↦ inl (laws.drop_handed_free s k has empty).1
        | inr none_left ↦ inr ((laws.drop_handed_first s k j js has front).0 ∙ none_left)
      ]
    ]
  ]
