-- ===== src/Pool/Attempts/Budget.antt =====
-- How many keys a request of src/pool.rs tries: the calls of one request in a row.
use mathlib.Core.Option
use orihsus.Prelude.{
  NoRepeat, ℕ, ◌<◌, ◌≤◌, ◌≡◌, refl, sym, ap, ◌∙◌, inl, inr, String, false, some, List, [], ◌∷◌,
  ◌++◌, length, length-append, any, str_eq, eq_iff, leb, Bool-cases, Option-cases, arith,
}
use orihsus.Pool.State.{KeyPool}
use orihsus.Pool.Attempts.{
  Selection, RequestAttempts, is_used, push_used, selection_of, try_select_unused, next_immediate,
}
use orihsus.Pool.Attempts.Select.{try_select_unused_lem}

-- The keys that a request has used are distinct, and no more than it may try.
pub record InBudget (limit : ℕ) (r : RequestAttempts) : Type 0 where
  pub same_limit : r.max_keys ≡ limit
  pub within : length r.used ≤ limit
  pub distinct : NoRepeat r.used

any-append :
    (s t : String) (ss : List String)
    → any (str_eq s) ss ≡ false
    → any (str_eq t) (s ∷ []) ≡ false
    → any (str_eq s) (ss ++ t ∷ []) ≡ false
any-append s t [] h k = ground (arith, eq_iff s t, eq_iff t s)
any-append s t (x ∷ ss) h k = ground (arith, any-append s t ss)

NoRepeat-push :
    (t : String) (ss : List String)
    → NoRepeat ss
    → any (str_eq t) ss ≡ false
    → NoRepeat (ss ++ t ∷ [])
NoRepeat-push t [] h k = (refl, tt)
NoRepeat-push t (s ∷ ss) h k =
    (any-append s t ss h.0 (ground arith), NoRepeat-push t ss h.1 (ground arith))

pub push_used-InBudget :
    (limit : ℕ) (r : RequestAttempts) (fp : String)
    → InBudget limit r
    → length r.used < limit
    → is_used r fp ≡ false
    → InBudget limit (push_used r fp)
push_used-InBudget limit r fp b room fresh = record {
  same_limit = b.same_limit;
  within = omega (arith, length-append r.used (fp ∷ []));
  distinct = NoRepeat-push fp r.used b.distinct fresh;
}

-- A selection is of a key that the request has not used.
pub selected_fresh :
    (p : KeyPool) (r : RequestAttempts) (now : ℕ) {sel : Selection} {p' : KeyPool}
    → try_select_unused p r now ≡ some (sel, p')
    → is_used r sel.fingerprint ≡ false
unfolding selection_of
selected_fresh p r now {sel} chosen = elim (try_select_unused_lem p r now) [
  | inl (nothing, _) ↦ absurd (Option.none-ne-some _ (sym nothing ∙ chosen))
  | inr (c, _, _, choice, _, (fresh, _, _, _, _), _) ↦
      let same = ap (λ t. t.0.fingerprint) (Option.some-injective _ _ (sym choice ∙ chosen)) in
      ap (is_used r) (sym same) ∙ fresh
]

pub next_immediate-InBudget :
    (limit : ℕ) (p : KeyPool) (r : RequestAttempts) (now : ℕ)
    → InBudget limit r
    → InBudget limit (next_immediate p r now).attempts
unfolding next_immediate
next_immediate-InBudget limit p r now b = elim (Bool-cases (leb r.max_keys (length r.used))) [
  | inl spent ↦ rw spent b
  | inr left ↦ elim (Option-cases (try_select_unused p r now)) [
    | inl nothing ↦ rw (left, nothing) b
    | inr ((sel, p'), chosen) ↦
        rw (left, chosen)
          (push_used-InBudget limit r sel.fingerprint b (ground (arith, b.same_limit))
            (selected_fresh p r now chosen))
  ]
]
