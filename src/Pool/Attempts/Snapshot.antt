-- ===== src/Pool/Attempts/Snapshot.antt =====
-- The candidates that a request of src/pool.rs captures.
use native.Mathlib.Nat.{mod-eq_of_lt, add-zero, zero-add, suc-add, add-mod_left}
use mathlib.Core.Path.{ap₂}
use orihsus.Prelude.{
  ℕ, zero, suc, ◌+◌, ◌-◌, ◌%◌, ◌<◌, ◌≤◌, ◌≡◌, refl, sym, ap, ◌∙◌, inl, inr, Option-cases, List, ◌∷◌,
  ◌++◌, map, length, get_elem?, take, drop, take_all, length-drop, drop-get_elem?, get_elem?-lt,
  arith,
}
use orihsus.Pool.Entry.{KeyEntry}
use orihsus.Pool.Attempts.{candidate_of, candidates_from}

module _ (es : List KeyEntry) (cursor : ℕ) where
  -- Rounds whose places run on from `s` without passing the end give a segment of the list.
  segment :
      (rounds off s : ℕ)
      → s + rounds ≤ length es
      → ((k : ℕ) → k < rounds → (cursor + (off + k)) % length es ≡ s + k)
      → candidates_from es cursor rounds off ≡ map candidate_of (take rounds (drop s es))
  unfolding candidates_from
  segment zero off s fits places = refl
  segment (suc rounds) off s fits places =
      let (e, at) = get_elem?-lt es s (omega arith) in
      let place : (cursor + off) % length es ≡ s =
        omega (
          arith,
          ap (λ (t : ℕ). (cursor + t) % length es) (add-zero off),
          places 0 (omega arith),
        ) in
      let shifted : (k : ℕ)
          → (cursor + (off + 1 + k)) % length es ≡ (cursor + (off + suc k)) % length es =
        λ k. ap (λ (t : ℕ). (cursor + t) % length es) (omega arith) in
      let rest =
        segment rounds (off + 1) (s + 1) (omega arith)
          (λ k lt. shifted k ∙ places (suc k) (omega arith) ∙ omega arith) in
      rw (place, at, candidates_from, drop-get_elem? es s at) (ap (◌∷◌ (candidate_of e)) rest)

  split_rounds :
      (a b off : ℕ)
      → candidates_from es cursor (a + b) off
        ≡ candidates_from es cursor a off ++ candidates_from es cursor b (off + a)
  unfolding candidates_from
  split_rounds zero b off = rw (zero-add b, add-zero off)
  split_rounds (suc a) b off =
      let next = split_rounds a b (off + 1) in
      let e : off + 1 + a ≡ off + suc a = omega arith in
      rw (suc-add a b, ← e)
        (elim (Option-cases (get_elem? es ((cursor + off) % length es))) [
          | inl out ↦ rw (out, candidates_from) next
          | inr (x, at) ↦ rw (at, candidates_from) (ap (◌∷◌ (candidate_of x)) next)
        ])

  -- With the cursor in range, the snapshot is the entry list from the cursor on, followed by the entries before the cursor.
  pub rotation :
      cursor < length es
      → candidates_from es cursor (length es) 0
        ≡ map candidate_of (drop cursor es) ++ map candidate_of (take cursor es)
  rotation h =
      let before = length es - cursor in
      let whole : length es ≡ before + cursor = omega arith in
      let first =
        segment before 0 cursor (omega arith) (λ k lt. mod-eq_of_lt (omega arith) ∙ omega arith) in
      let second = segment cursor before 0 (omega arith) (λ k lt.
        ap (λ (t : ℕ). t % length es) (omega arith)
        ∙ add-mod_left (length es) k
        ∙ mod-eq_of_lt (omega arith)
        ∙ sym (zero-add k)) in
      ap (λ n. candidates_from es cursor n 0) whole
      ∙ split_rounds before cursor 0
      ∙ ap₂ (◌++◌)
          (first
            ∙ ap (map candidate_of)
                (take_all before (drop cursor es) (omega (arith, length-drop cursor es))))
          (ap (candidates_from es cursor cursor) (zero-add before) ∙ second)
