-- ===== src/Pool/Entry/Search.antt =====
-- The entry list of src/pool.rs under a write through the entry that a search finds.
use mathlib.Core.Option
use mathlib.Core.Path.{subst}
use orihsus.Prelude.{
  suc, ◌≡◌, refl, ap, sym, ◌∙◌, ◌≢◌, inl, inr, String, Option, some, List, [], ◌∷◌, length, All,
  str_eq, eq_iff, eq_refl, if◌then◌else◌, Bool-cases, arith,
}
use orihsus.Pool.Entry.{KeyEntry, find_entry, update_entry}

-- Two lists of one length, related place by place.
abbrev pub Pointwise {ℓ} : {A : Type ℓ} → (A → A → Type 0) → List A → List A → Type 0
Pointwise R [] [] = Unit
Pointwise R (x ∷ xs) (y ∷ ys) = R x y × Pointwise R xs ys
Pointwise R _ _ = ⊥

pub Pointwise-length {ℓ} :
    {A : Type ℓ} (R : A → A → Type 0) (xs ys : List A) → Pointwise R xs ys → length xs ≡ length ys
Pointwise-length R [] [] h = refl
Pointwise-length R (x ∷ xs) (y ∷ ys) h = ap suc (Pointwise-length R xs ys h.1)
Pointwise-length R [] (y ∷ ys) h = absurd h
Pointwise-length R (x ∷ xs) [] h = absurd h

pub Pointwise-refl {ℓ} :
    {A : Type ℓ} (R : A → A → Type 0) → ((x : A) → R x x) → (xs : List A) → Pointwise R xs xs
Pointwise-refl R r [] = tt
Pointwise-refl R r (x ∷ xs) = (r x, Pointwise-refl R r xs)

pub find_entry-fingerprint :
    (fp : String) (es : List KeyEntry) {e : KeyEntry}
    → find_entry fp es ≡ some e
    → e.fingerprint ≡ fp
find_entry-fingerprint fp [] h = cc
find_entry-fingerprint fp (x ∷ es) {e} h = elim (Bool-cases (str_eq x.fingerprint fp)) [
  | inl same ↦ ground (arith, eq_iff x.fingerprint fp)
  | inr other ↦ find_entry-fingerprint fp es (rw other at h)
]

-- What holds of the entry that a search finds holds of any entry that it finds.
pub found_once :
    (P : KeyEntry → Type 0) (o : Option KeyEntry) {e : KeyEntry}
    → o ≡ some e
    → P e
    → (x : KeyEntry) → o ≡ some x
    → P x
found_once P o {e} h pe x hx = subst P (Option.some-injective e x (sym h ∙ hx)) pe

pub All-find_entry :
    (P : KeyEntry → Type 0) (fp : String) (es : List KeyEntry) {e : KeyEntry}
    → All P es
    → find_entry fp es ≡ some e
    → P e
All-find_entry P fp [] a h = cc
All-find_entry P fp (x ∷ es) {e} a h = elim (Bool-cases (str_eq x.fingerprint fp)) [
  | inl same ↦ found_once P (some x) refl a.0 e (rw same at h)
  | inr other ↦ All-find_entry P fp es a.1 (rw other at h)
]

module _ (fp : String) (f : KeyEntry → KeyEntry) where
  -- What holds of every entry, and of the one found after the write, holds of every entry after.
  pub All-update_entry :
      (P : KeyEntry → Type 0) (es : List KeyEntry)
      → All P es
      → ((e : KeyEntry) → find_entry fp es ≡ some e → P e → P (f e))
      → All P (update_entry fp f es)
  unfolding update_entry
  All-update_entry P [] a h = tt
  All-update_entry P (x ∷ es) a h = elim (Bool-cases (str_eq x.fingerprint fp)) [
    | inl same ↦ rw same (h x (rw same) a.0, a.1)
    | inr other ↦ rw other (a.0, All-update_entry P es a.1 (λ e found. h e (rw other found)))
  ]

  pub Pointwise-update_entry :
      (R : KeyEntry → KeyEntry → Type 0)
      → ((e : KeyEntry) → R e e)
      → (es : List KeyEntry) → ((e : KeyEntry) → find_entry fp es ≡ some e → R e (f e))
      → Pointwise R es (update_entry fp f es)
  unfolding update_entry
  Pointwise-update_entry R r [] h = tt
  Pointwise-update_entry R r (x ∷ es) h = elim (Bool-cases (str_eq x.fingerprint fp)) [
    | inl same ↦ rw same (h x (rw same), Pointwise-refl R r es)
    | inr other ↦ rw other (r x, Pointwise-update_entry R r es (λ e found. h e (rw other found)))
  ]

  pub length-update_entry : (es : List KeyEntry) → length (update_entry fp f es) ≡ length es
  unfolding update_entry
  length-update_entry [] = refl
  length-update_entry (x ∷ es) = ground (arith, length-update_entry es)

  -- A search after the write: the entry of that fingerprint is the one written.
  pub find_entry-update_entry :
      (es : List KeyEntry) (q : String)
      → ((e : KeyEntry) → find_entry fp es ≡ some e → (f e).fingerprint ≡ fp)
      → find_entry q (update_entry fp f es)
        ≡ (if str_eq fp q then Option.map f (find_entry q es) else find_entry q es)
  unfolding update_entry
  find_entry-update_entry [] q h = ground arith
  find_entry-update_entry (x ∷ es) q h = elim (Bool-cases (str_eq x.fingerprint fp)) [
    | inl same ↦ ground (
      arith,
      h x,
      eq_iff x.fingerprint fp,
      eq_iff fp q,
      eq_iff x.fingerprint q,
      eq_iff (f x).fingerprint q,
    )
    | inr other ↦ ground (
      arith,
      find_entry-update_entry es q (λ e found. h e (rw other found)),
      eq_iff x.fingerprint fp,
      eq_iff fp q,
      eq_iff x.fingerprint q,
    )
  ]

  -- The two cases of the search, with the entry found before the write.
  pub find_entry-update_self :
      (es : List KeyEntry) {e : KeyEntry}
      → find_entry fp es ≡ some e
      → (f e).fingerprint ≡ fp
      → find_entry fp (update_entry fp f es) ≡ some (f e)
  find_entry-update_self es {e} found keeps = rw (
    find_entry-update_entry es fp
        (found_once (λ x. (f x).fingerprint ≡ fp) (find_entry fp es) found keeps),
    eq_refl fp,
    found,
  )

  pub find_entry-update_ne :
      (es : List KeyEntry) {q : String}
      → ((e : KeyEntry) → find_entry fp es ≡ some e → (f e).fingerprint ≡ fp)
      → q ≢ fp
      → find_entry q (update_entry fp f es) ≡ find_entry q es
  find_entry-update_ne es {q} keeps other =
      ground (arith, find_entry-update_entry es q keeps, eq_iff fp q, λ (h : fp ≡ q). other (sym h))
