-- ===== src/ModelMonitor/Synced.antt =====
-- Which model lists the synchronization of src/models.rs lets into the runtime.
use orihsus.Prelude.{
  ◌≡◌, refl, ap, ◌∙◌, ◌⊎◌, inl, inr, ℕ, String, Bool, true, false, Option, none, some, List, [],
  ◌∷◌, map, if◌then◌else◌, Result, ok, err, All, arith, Bool-cases, Option-cases, NoRepeat, Unseen,
  Unseen-head, Unseen-tail,
}
use orihsus.Config.Types.{ModelSync}
use orihsus.Config.Limits.Models.{IsModelName, ModelsAreValid}
use orihsus.Gateway.Store.{RuntimeStore, update_models}
use orihsus.ModelMonitor.{
  ModelOps, is_refused, push_id, eq_model_sync, collect, collect_some, ids_in, data_of,
  parse_models, apply_fetched, sync_round,
}

-- The names, if there are any, are those of the items, checked against what was seen and against
-- each other.
Collected : List String → List (Option String) → Option (List String) → Type 0
Collected seen items none = Unit
Collected seen items (some ids) =
    (items ≡ map some ids) × Unseen seen ids × All IsModelName ids × NoRepeat ids

push_id-Collected :
    (seen : List String) (id : String) (items : List (Option String)) (o : Option (List String))
    → is_refused seen id ≡ false
    → Collected (id ∷ seen) items o
    → Collected seen (some id ∷ items) (push_id id o)
unfolding Collected
push_id-Collected seen id items none good h = tt
push_id-Collected seen id items (some ids) good (same, unseen, named, differ) = (
  ap (◌∷◌ (some id)) same,
  (ground arith, Unseen-tail id seen ids unseen),
  ((ground arith, ground arith), named),
  (Unseen-head id seen ids unseen, differ),
)

collect-Collected :
    (seen : List String) (items : List (Option String)) → Collected seen items (collect seen items)
unfolding collect Collected
collect-Collected seen [] = (refl, tt, tt, tt)
collect-Collected seen (none ∷ items) = tt
collect-Collected seen (some id ∷ items) = elim (Bool-cases (is_refused seen id)) [
  | inl refused ↦ rw refused tt
  | inr good ↦ rw good (
      push_id-Collected seen id items (collect (id ∷ seen) items) good
        (collect-Collected (id ∷ seen) items))
]

-- The list, if there is one, is valid and holds the identifiers of the items in their order.
abbrev pub Lists : Option (List (Option String)) → Option (List String) → Type 0
Lists items none = Unit
Lists items (some ids) = (items ≡ some (map some ids)) × ModelsAreValid ids

of_Collected :
    (item : Option String) (items : List (Option String)) (o : Option (List String))
    → Collected [] (item ∷ items) o
    → Lists (some (item ∷ items)) o
unfolding Collected
of_Collected item items none h = tt
of_Collected item items (some []) (same, _, _, _) = cc
of_Collected item items (some (id ∷ ids)) (same, _, named, differ) =
    (ap some same, record { some_model = omega arith; model_names = named; models_differ = differ })

collect_some-Lists : (items : Option (List (Option String))) → Lists items (collect_some items)
collect_some-Lists none = tt
collect_some-Lists (some []) = tt
collect_some-Lists (some (item ∷ items)) =
    of_Collected item items (collect [] (item ∷ items)) (collect-Collected [] (item ∷ items))

gated {ℓ} :
    {A : Type ℓ} (a b : Bool) (s x : A)
    → ((if a then (if b then x else s) else s) ≡ s)
      ⊎ ((a ≡ true) × (b ≡ true) × ((if a then (if b then x else s) else s) ≡ x))
gated false b s x = inl refl
gated true false s x = inl refl
gated true true s x = inr (refl, refl, refl)

module _ {J : Type 0} (ops : ModelOps J) where
  -- The store is as it was, or has the models of a body that was fetched, of a configuration that is
  -- on and that is still the current one.
  abbrev pub IsSynced :
      {U E : Type 0}
      → RuntimeStore U
      → ModelSync
      → ModelSync
      → Result (List ℕ) E
      → RuntimeStore U
      → Type 0
  IsSynced store generation current fetched after =
      (after ≡ store)
      ⊎ ((body : List ℕ) × (models : List String) × (fetched ≡ ok body)
          × (ids_in ops (data_of ops (ops.read body)) ≡ some (map some models))
          × ModelsAreValid models
          × (generation.enabled ≡ true)
          × (eq_model_sync current generation ≡ true)
          × (after ≡ update_models store models))

  parse_models-Lists :
      (body : List ℕ) → Lists (ids_in ops (data_of ops (ops.read body))) (parse_models ops body)
  unfolding parse_models
  parse_models-Lists body = collect_some-Lists (ids_in ops (data_of ops (ops.read body)))

  -- A round of the synchronization leaves the runtime as it is, or replaces its models and nothing
  -- else: by the identifiers of the list that was fetched, in their order, which are some, well formed
  -- and without repetition, and only if the configuration is on and has not changed during the fetch.
  pub sync_round-IsSynced :
      {U E : Type 0} (store : RuntimeStore U) (generation current : ModelSync)
      (fetched : Result (List ℕ) E)
      → IsSynced store generation current fetched (sync_round ops store generation current fetched)
  unfolding sync_round apply_fetched
  sync_round-IsSynced store generation current (err e) =
      elim (gated generation.enabled (eq_model_sync current generation) store store) [
        | inl same ↦ inl same
        | inr (_, _, same) ↦ inl same
      ]
  sync_round-IsSynced {E = E} store generation current (ok body) =
      elim (gated generation.enabled (eq_model_sync current generation) store
        (apply_fetched ops {E = E} store (ok body))) [
          | inl same ↦ inl same
          | inr (on, current_still, applied) ↦ elim (Option-cases (parse_models ops body)) [
            | inl unread ↦ inl (applied ∙ rw unread refl)
            | inr (models, found) ↦
                let (listed, valid) = rw found at (parse_models-Lists body) in
                inr (body, models, refl, listed, valid, on, current_still, applied ∙ rw found refl)
          ]
        ]
