-- ===== src/ModelMonitor.antt =====
-- The model synchronization of src/models.rs: `parse_models`, and the worker of `ModelMonitor` over
-- the rounds that it makes. JSON is a parameter, and what the fetcher brings is the environment.
pub mod Synced
pub mod Tests
use mathlib.Core.Option
use orihsus.Prelude.{
  ℕ, String, Bool, true, false, ◌&&◌, ◌||◌, map, Option, none, some, List, [], ◌∷◌, any, ltb, len,
  ◌==◌, str_eq, is_blank, if◌then◌else◌, Result, ok, err,
}
use orihsus.Config.Types.{ModelSync}
use orihsus.Config.Limits.{max_model_bytes}
use orihsus.Gateway.Store.{RuntimeStore, update_models}

-- `serde_json::Value` by `from_slice`, `get`, `as_array` and `as_str`.
pub record ModelOps (J : Type 0) : Type 0 where
  pub read : List ℕ → Option J
  pub get : J → String → Option J
  pub as_array : J → Option (List J)
  pub as_text : J → Option String

abbrev pub is_refused : List String → String → Bool
is_refused seen id = is_blank id || ltb max_model_bytes (len id) || any (str_eq id) seen

abbrev push_id : String → Option (List String) → Option (List String)
push_id id none = none
push_id id (some ids) = some (id ∷ ids)

-- The derived `PartialEq`.
unfoldable pub eq_model_sync : ModelSync → ModelSync → Bool
eq_model_sync a b =
    (if a.enabled then b.enabled else if b.enabled then false else true) && a.interval == b.interval

-- The loop over the identifiers of the items, with those seen; `none` is an item without one.
unfoldable pub collect : List String → List (Option String) → Option (List String)
collect seen [] = some []
collect seen (none ∷ items) = none
collect seen (some id ∷ items) =
    let rest = collect (id ∷ seen) items in if is_refused seen id then none else push_id id rest

abbrev pub collect_some : Option (List (Option String)) → Option (List String)
collect_some none = none
collect_some (some []) = none
collect_some (some (item ∷ items)) = collect [] (item ∷ items)

module _ {J : Type 0} (ops : ModelOps J) where
  abbrev id_in : Option J → Option String
  id_in none = none
  id_in (some v) = ops.as_text v

  abbrev data_of : Option J → Option J
  data_of none = none
  data_of (some root) = ops.get root "data"

  abbrev ids_in : Option J → Option (List (Option String))
  ids_in none = none
  ids_in (some v) = Option.map (map (λ item. id_in (ops.get item "id"))) (ops.as_array v)

  unfoldable pub parse_models : List ℕ → Option (List String)
  unfolding collect
  parse_models body = collect_some (ids_in (data_of (ops.read body)))

  abbrev updated : {U : Type 0} → RuntimeStore U → Option (List String) → RuntimeStore U
  updated store none = store
  updated store (some models) = update_models store models

  -- What a fetch does to the store; an error does nothing.
  unfoldable pub apply_fetched :
      {U E : Type 0} → RuntimeStore U → Result (List ℕ) E → RuntimeStore U
  unfolding parse_models update_models
  apply_fetched store (err e) = store
  apply_fetched store (ok body) = updated store (parse_models body)

  -- A round of the worker: the configuration before the fetch, the one behind it, and the fetch.
  unfoldable pub sync_round :
      {U E : Type 0} → RuntimeStore U → ModelSync → ModelSync → Result (List ℕ) E → RuntimeStore U
  unfolding apply_fetched eq_model_sync
  sync_round store generation current fetched =
      if generation.enabled
      then (if eq_model_sync current generation then apply_fetched store fetched else store)
      else store
