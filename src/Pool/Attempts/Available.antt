-- ===== src/Pool/Attempts/Available.antt =====
-- `has_available_key` of src/pool.rs against what a request finds.
use mathlib.Core.Bool.{false≢true}
use mathlib.Core.Option
use mathlib.Core.Path.{subst}
use orihsus.Prelude.{
  NoRepeat, ℕ, ◌<◌, ◌≡◌, refl, sym, ◌∙◌, inl, inr, String, true, false, not, some, List, [], ◌∷◌,
  map, length, any, take, drop, All, All-map, All-zip, All-append, take-append-drop, str_eq,
  eq_refl, arith,
}
use orihsus.Pool.Entry.{KeyEntry, is_cooling, find_entry}
use orihsus.Pool.State.{KeyPool, has_available_key}
use orihsus.Pool.Attempts.{
  Selection, RequestCandidate, candidate_of, request, request_with_model, after_select,
  selection_of, try_select_unused,
}
use orihsus.Pool.Attempts.Select.{Barred, try_select_unused_lem}
use orihsus.Pool.Attempts.Snapshot.{rotation}

abbrev pub fingerprints : List KeyEntry → List String
fingerprints = map (λ e. e.fingerprint)

others_differ :
    (fp : String) (es : List KeyEntry)
    → any (str_eq fp) (fingerprints es) ≡ false
    → All (λ e. str_eq fp e.fingerprint ≡ false) es
others_differ fp [] h = tt
others_differ fp (e ∷ es) h = (ground arith, others_differ fp es (ground arith))

-- Where no fingerprint stands twice, the search for an entry's fingerprint finds that entry.
find_entry_self :
    (es : List KeyEntry)
    → NoRepeat (fingerprints es)
    → All (λ e. find_entry e.fingerprint es ≡ some e) es
find_entry_self [] h = tt
find_entry_self (x ∷ es) h = (
  rw (eq_refl x.fingerprint),
  All-map es (λ e both. rw (both.0) both.1)
      (All-zip (λ e. str_eq x.fingerprint e.fingerprint ≡ false)
        (λ e. find_entry e.fingerprint es ≡ some e) es (others_differ x.fingerprint es h.0)
        (find_entry_self es h.1)),
)

none_available :
    (now : ℕ) (es : List KeyEntry)
    → All (λ e. is_cooling now e ≡ true) es
    → any (λ e. not (is_cooling now e)) es ≡ false
none_available now [] h = refl
none_available now (e ∷ es) h = ground (arith, none_available now es h.1)

module _ (p : KeyPool) (start now : ℕ) where
  -- For a new request without a model, only a cooling key is barred.
  cools_of_Barred :
      (e : KeyEntry)
      → Barred p (request p start) now (candidate_of e)
      → find_entry e.fingerprint p.entries ≡ some e
      → is_cooling now e ≡ true
  unfolding request_with_model candidate_of
  cools_of_Barred e (inl used) found = absurd (false≢true used)
  cools_of_Barred e (inr (inl absent)) found = absurd (Option.none-ne-some e (sym absent ∙ found))
  cools_of_Barred e (inr (inr (x, at, inl cools))) found =
      let same : x ≡ e = Option.some-injective x e (sym at ∙ found) in rw (← same) cools
  cools_of_Barred e (inr (inr (x, at, inr of_model))) found = absurd (false≢true of_model)

  All-map_iff :
      (P : RequestCandidate → Type 0) (es : List KeyEntry)
      → All P (map candidate_of es)
      → All (λ e. P (candidate_of e)) es
  All-map_iff P [] h = tt
  All-map_iff P (e ∷ es) h = (h.0, All-map_iff P es h.1)

  All-Barred :
      p.cursor < length p.entries
      → All (Barred p (request p start) now) (request p start).candidates
      → All (λ e. Barred p (request p start) now (candidate_of e)) p.entries
  unfolding request_with_model
  All-Barred inside h =
      let B = Barred p (request p start) now in
      let P : KeyEntry → Type 0 = λ e. B (candidate_of e) in
      let after = drop p.cursor p.entries in
      let before = take p.cursor p.entries in
      let (of_after, of_before) =
        (All-append B (map candidate_of after) (map candidate_of before)).0
          (subst (All B) (rotation p.entries p.cursor inside) h) in
      subst (All P) (take-append-drop p.cursor p.entries) (
        (All-append P before after).1
          (All-map_iff B before of_before, All-map_iff B after of_after))

  -- On a pool whose cursor is in range and where no fingerprint stands twice, if the pool says that
  -- a key is available, then a new request without a model selects one at that instant.
  pub available-selected :
      p.cursor < length p.entries
      → NoRepeat (fingerprints p.entries)
      → has_available_key p now ≡ true
      → (sel : Selection) × (p' : KeyPool) × (try_select_unused p (request p start) now
          ≡ some (sel, p'))
  unfolding has_available_key
  available-selected inside distinct available =
      elim (try_select_unused_lem p (request p start) now) [
        | inr (c, _, _, chosen, _, _, _) ↦ (selection_of p c, after_select p now c, chosen)
        | inl (_, barred) ↦
            let cooling =
              All-map p.entries (λ e both. cools_of_Barred e both.0 both.1)
                (All-zip (λ e. Barred p (request p start) now (candidate_of e))
                  (λ e. find_entry e.fingerprint p.entries ≡ some e) p.entries
                  (All-Barred inside barred) (find_entry_self p.entries distinct)) in
            absurd (false≢true (sym (none_available now p.entries cooling) ∙ available))
      ]
