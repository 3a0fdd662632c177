-- ===== src/Semaphore/Asks.antt =====
-- What a poll of tokio's `acquire_owned` does to a semaphore: it takes a permit, or keeps them.
use orihsus.Prelude.{
  ℕ, suc, ◌≡◌, refl, sym, ap, ◌∙◌, ◌⊎◌, inl, inr, true, false, [], length, Bool-cases, arith,
}
use orihsus.Semaphore.{Polled, ready, shut_out, not_yet, SemaphoreOps, SemaphoreLaws, is_in, remove}
use orihsus.Semaphore.Load.{ℕ-cases, length-remove, load, IsFair, drop-load, drop-IsFair}

some_left : (n : ℕ) → suc n ≡ 0 → ⊥
some_left n h = omega (arith, h)

module _ {S : Type 0} (ops : SemaphoreOps S) (laws : SemaphoreLaws ops) where
  -- As many permits without a holder, fair if it was, and open or closed as it was.
  pub record Keeps (s s' : S) : Type 0 where
    pub same : load ops laws s' ≡ load ops laws s
    pub fair : IsFair ops laws s → IsFair ops laws s'
    pub shut : ops.is_shut s' ≡ ops.is_shut s

  pub record Takes (s s' : S) : Type 0 where
    pub fewer : load ops laws s ≡ suc (load ops laws s')
    pub fair : IsFair ops laws s → IsFair ops laws s'
    pub shut : ops.is_shut s' ≡ ops.is_shut s

  abbrev pub Asked : S → Polled S → Type 0
  Asked s p =
      (p ≡ shut_out)
      ⊎ (((s' : S) × (p ≡ ready s') × Takes s s') ⊎ ((s' : S) × (p ≡ not_yet s') × Keeps s s'))

  drop-Keeps : (s : S) (k : ℕ) → Keeps s (ops.drop_acquire s k)
  drop-Keeps s k = record {
    same = drop-load ops laws s k;
    fair = drop-IsFair ops laws s k;
    shut = laws.drop_shut s k;
  }

  pub drop_after : (s s' : S) (k : ℕ) → Keeps s s' → Keeps s (ops.drop_acquire s' k)
  drop_after s s' k first =
      let dropped = drop-Keeps s' k in
      record {
        same = dropped.same ∙ first.same;
        fair = λ f. dropped.fair (first.fair f);
        shut = dropped.shut ∙ first.shut;
      }

  pub self-Keeps : (s : S) → Keeps s s
  self-Keeps s = record { same = refl; fair = λ f. f; shut = refl }

  pub no_line : (s : S) (n : ℕ) → ops.available s ≡ suc n → IsFair ops laws s → laws.line s ≡ []
  no_line s n left fair = elim fair [
    | inl empty ↦ empty
    | inr none_left ↦ elim (some_left n (sym left ∙ none_left)) [ ]
  ]

  pub start_cases : (s : S) (k : ℕ) → Asked s (ops.start_acquire s k)
  start_cases s k = elim (Bool-cases (ops.is_shut s)) [
    | inl shut ↦ inl (laws.start_shut s k shut)
    | inr opened ↦ elim (ℕ-cases (ops.available s)) [
      | inl none_left ↦
          let (s', waits, empty, still, longer, same) = laws.start_empty s k opened none_left in
          inr (
            inr (
              s',
              waits,
              record {
                same = omega (arith, empty, none_left, ap length same);
                fair = λ f. inr empty;
                shut = still ∙ sym opened;
              },
            ))
      | inr (n, left) ↦
          let (s', took, now, still, in_line, same) = laws.start_some s k n opened left in
          inr (
            inl (
              s',
              took,
              record {
                fewer = omega (arith, now, left, ap length same);
                fair = λ f. inl (in_line ∙ no_line s n left f);
                shut = still ∙ sym opened;
              },
            ))
    ]
  ]

  took_handed :
      (s : S) (k : ℕ)
      → ops.is_shut s ≡ false
      → is_in k (laws.handed s) ≡ true
      → Asked s (ops.poll_acquire s k)
  took_handed s k opened has =
      let (s', took, now, still, in_line, rest) = laws.poll_handed s k opened has in
      inr (
        inl (
          s',
          took,
          record {
            fewer = omega (arith, now, length-remove k (laws.handed s) has, ap length rest);
            fair = λ f. elim f [
              | inl empty ↦ inl (in_line ∙ empty)
              | inr none_left ↦ inr (now ∙ none_left)
            ];
            shut = still ∙ sym opened;
          },
        ))

  not_handed :
      (s : S) (k : ℕ)
      → ops.is_shut s ≡ false
      → is_in k (laws.handed s) ≡ false
      → Asked s (ops.poll_acquire s k)
  not_handed s k opened hasnt = elim (ℕ-cases (ops.available s)) [
    | inl none_left ↦ inr (inr (s, laws.poll_empty s k opened hasnt none_left, self-Keeps s))
    | inr (n, left) ↦
        let (s', took, now, still, in_line, same) = laws.poll_some s k n opened hasnt left in
        inr (
          inl (
            s',
            took,
            record {
              fewer = omega (arith, now, left, ap length same);
              fair = λ f. inl (in_line ∙ ap (remove k) (no_line s n left f));
              shut = still ∙ sym opened;
            },
          ))
  ]

  pub poll_cases : (s : S) (k : ℕ) → Asked s (ops.poll_acquire s k)
  poll_cases s k = elim (Bool-cases (ops.is_shut s)) [
    | inl shut ↦ inl (laws.poll_shut s k shut)
    | inr opened ↦ elim (Bool-cases (is_in k (laws.handed s))) [
      | inl has ↦ took_handed s k opened has
      | inr hasnt ↦ not_handed s k opened hasnt
    ]
  ]
