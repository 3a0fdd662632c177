-- ===== src/Config/Limits/Models.antt =====
-- What the model list of src/config.rs satisfies once it is accepted.
use orihsus.Prelude.{
  ◌<◌, ◌≤◌, ◌≡◌, refl, String, Bool, true, false, Option, none, some, List, [], ◌∷◌, length, any,
  All, ok, Ensures, Ensures-map, Ensures-reject, Ensures->>=, arith, len, ltb, is_blank, str_eq,
  NoRepeat, Unseen, Unseen-head, Unseen-tail,
}
use orihsus.Time.{from_secs}
use orihsus.Config.Raw.{RawModelSync}
use orihsus.Config.Limits.{max_model_bytes, models_loop, load_models, load_model_sync}

-- A model's name is not blank and has at most 256 bytes.
abbrev pub IsModelName : String → Type 0
IsModelName m = (is_blank m ≡ false) × (len m ≤ max_model_bytes)

pub record ModelsAreValid (ms : List String) : Type 0 where
  pub some_model : 0 < length ms
  pub model_names : All IsModelName ms
  pub models_differ : NoRepeat ms

models_loop-Checked :
    (seen ms : List String)
    → Ensures (λ _. Unseen seen ms × All IsModelName ms × NoRepeat ms) (models_loop seen ms)
unfolding models_loop
models_loop-Checked seen [] = (tt, tt, tt)
models_loop-Checked seen (m ∷ ms) = Ensures-reject Q (is_blank m) _ _ (λ filled.
    Ensures-reject Q (ltb max_model_bytes (len m)) _ _ (λ short.
      Ensures-reject Q (any (str_eq m) seen) _ (models_loop (m ∷ seen) ms) (λ new.
        Ensures-map (λ _. Unseen (m ∷ seen) ms × All IsModelName ms × NoRepeat ms) Q
          (models_loop (m ∷ seen) ms)
          (λ _ h. (
            (new, Unseen-tail m seen ms h.0),
            ((filled, ground arith), h.1),
            (Unseen-head m seen ms h.0, h.2),
          ))
          (models_loop-Checked (m ∷ seen) ms))))
  where
    Q : Unit {0} → Type 0
    Q _ = Unseen seen (m ∷ ms) × All IsModelName (m ∷ ms) × NoRepeat (m ∷ ms)

-- Whatever the setting is, when it is accepted there is a model, each name is not blank and has at
-- most 256 bytes, and no name stands twice; without the setting this holds of the default.
pub load_models-valid : (raw : Option (List String)) → Ensures ModelsAreValid (load_models raw)
unfolding load_models is_blank
load_models-valid none = record {
  some_model = omega arith;
  model_names = ((refl, omega arith), tt);
  models_differ = (refl, tt);
}
load_models-valid (some []) = tt
load_models-valid (some (m ∷ ms)) =
    Ensures->>= (λ _. Unseen [] (m ∷ ms) × All IsModelName (m ∷ ms) × NoRepeat (m ∷ ms))
      ModelsAreValid (models_loop [] (m ∷ ms)) (λ _. ok (m ∷ ms)) (models_loop-Checked [] (m ∷ ms))
      (λ _ h. record { some_model = omega arith; model_names = h.1; models_differ = h.2 })

-- If the section is accepted, its interval is at least 30 seconds, and a manual list turns
-- synchronization off.
pub load_model_sync-valid :
    (has_manual_models : Bool) (raw : Option RawModelSync)
    → Ensures
        (λ s. (from_secs 30 ≤ s.interval) × (has_manual_models ≡ true → s.enabled ≡ false))
        (load_model_sync has_manual_models raw)
unfolding load_model_sync
load_model_sync-valid has_manual_models raw = ground arith
