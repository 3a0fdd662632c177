-- ===== src/Pool/State/Reload.antt =====
-- What `replace_keys` of src/pool.rs carries over.
use orihsus.Prelude.{
  ℕ, ◌-◌, ◌≡◌, refl, ◌⊎◌, inl, inr, min, String, none, some, List, [], ◌∷◌, map, length, length-map,
  ok, err, Option-cases, arith,
}
use orihsus.Config.Secret.{Secret}
use orihsus.Audit.Fingerprint.{fingerprint}
use orihsus.Pool.Policy.{empty_keys}
use orihsus.Pool.Entry.{KeyEntry, find_entry, key_suffix}
use orihsus.Pool.State.{KeyPool, fresh_entry, carried_entry, replace_keys}

module _ (sha256 : String → List ℕ) where
  -- What the entry of a key becomes: fresh if its fingerprint is new to the pool, and else the entry
  -- found there with all that has been learned of it.
  abbrev pub Carried : List KeyEntry → Secret → KeyEntry → Type 0
  Carried old key e =
      ((find_entry (fingerprint sha256 key.as_str) old ≡ none) × (e ≡ fresh_entry sha256 key))
      ⊎ ((prev : KeyEntry) × (find_entry (fingerprint sha256 key.as_str) old ≡ some prev)
          × (e ≡ record prev {
            key = key;
            fingerprint = fingerprint sha256 key.as_str;
            status_id = key_suffix key.as_str;
          }))

  carried_entry_lem :
      (old : List KeyEntry) (key : Secret) → Carried old key (carried_entry sha256 old key)
  unfolding carried_entry fresh_entry
  carried_entry_lem old key = elim (Option-cases (find_entry (fingerprint sha256 key.as_str) old)) [
    | inl new ↦ inl (new, rw (new, carried_entry))
    | inr (prev, found) ↦ inr (prev, found, rw (found, carried_entry))
  ]

  -- The entries go by the keys, one for one and in order.
  abbrev pub AllCarried : List KeyEntry → List Secret → List KeyEntry → Type 0
  AllCarried old [] [] = Unit
  AllCarried old (key ∷ keys) (e ∷ es) = Carried old key e × AllCarried old keys es
  AllCarried old _ _ = ⊥

  all_carried :
      (old : List KeyEntry) (keys : List Secret)
      → AllCarried old keys (map (carried_entry sha256 old) keys)
  all_carried old [] = tt
  all_carried old (key ∷ keys) = (carried_entry_lem old key, all_carried old keys)

  -- A reload without keys is refused. Any other gives the pool an entry for each key, in order: a key
  -- that the pool had keeps its cooldowns, failures, backoff and marks, a new one starts fresh. The
  -- cursor stays, or goes to the last entry; policy, jitter and ids are those of before.
  pub replace_keys_lem :
      (p : KeyPool) (keys : List Secret)
      → ((keys ≡ []) × (replace_keys sha256 p keys ≡ err empty_keys))
        ⊎ ((p' : KeyPool) × (replace_keys sha256 p keys ≡ ok p')
            × AllCarried p.entries keys p'.entries
            × (p'.cursor ≡ min p.cursor (length keys - 1))
            × (p'.policy ≡ p.policy)
            × (p'.jitter_source ≡ p.jitter_source)
            × (p'.next_id ≡ p.next_id))
  unfolding replace_keys
  replace_keys_lem p [] = inl (refl, refl)
  replace_keys_lem p (key ∷ keys) =
      let es = map (carried_entry sha256 p.entries) (key ∷ keys) in
      let len = length-map (carried_entry sha256 p.entries) (key ∷ keys) in
      inr (
        record p { entries = es; cursor = min p.cursor (length es - 1) },
        refl,
        all_carried p.entries (key ∷ keys),
        omega (arith, len),
        refl,
        refl,
        refl,
      )
