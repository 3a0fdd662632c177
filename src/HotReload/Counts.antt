-- ===== src/HotReload/Counts.antt =====
-- The counters of the status of src/hot_reload.rs.
use orihsus.Prelude.{
  ◌≡◌, ◌∙◌, inl, inr, ℕ, ◌+◌, ◌%◌, ◌^◌, String, Option, none, some, List, [], ◌∷◌, arith,
}
use orihsus.Config.Types.{Config}
use orihsus.HotReload.{Reloader, Wake, add_one, reload, after_between, worker}
use orihsus.HotReload.Adopts.{adopted, reload_lem}

-- One for a load that is adopted, and one for a load that is not.
abbrev success : Option Config → ℕ
success none = 0
success (some cfg) = 1

abbrev failure : Option Config → ℕ
failure none = 1
failure (some cfg) = 0

module _ {E : Type 0} where
  unfoldable pub adoptions : Config → List (Wake E) → ℕ
  unfolding adopted
  adoptions initial [] = 0
  adoptions initial (w ∷ ws) = success (adopted initial w.loaded) + adoptions initial ws

  unfoldable pub refusals : Config → List (Wake E) → ℕ
  unfolding adopted
  refusals initial [] = 0
  refusals initial (w ∷ ws) = failure (adopted initial w.loaded) + refusals initial ws

counted : (n m k : ℕ) → m ≡ add_one n → (m + k) % 2 ^ 64 ≡ (n + (1 + k)) % 2 ^ 64
counted n m k one = omega arith

module _ {U E : Type 0} (sha256 : String → List ℕ) (url : U) where
  -- Over every history, the counter of successful reloads goes up by the loads that were adopted,
  -- and that of failed ones by the others, both modulo 2^64.
  pub worker-counts :
      (initial : Config) (r : Reloader U E) (ws : List (Wake E))
      → let r' = worker sha256 url initial r ws in
        (r'.status.successful_reloads % 2 ^ 64
          ≡ (r.status.successful_reloads + adoptions initial ws) % 2 ^ 64)
        × (r'.status.failed_reloads % 2 ^ 64
            ≡ (r.status.failed_reloads + refusals initial ws) % 2 ^ 64)
  unfolding worker adoptions refusals
  worker-counts initial r [] = (omega arith, omega arith)
  worker-counts initial r (w ∷ ws) =
      let next = after_between sha256 url r w in
      let (good, bad) = worker-counts initial (reload sha256 url initial next w.loaded w.now) ws in
      elim (reload_lem sha256 url initial next w.loaded w.now) [
        | inl (refused, _, failed, succeeded) ↦
            rw refused
              (omega (arith, good, succeeded), bad ∙ counted _ _ (refusals initial ws) failed)
        | inr (cfg, adopts, _, _, failed, succeeded) ↦
            rw adopts
              (good ∙ counted _ _ (adoptions initial ws) succeeded, omega (arith, bad, failed))
      ]
