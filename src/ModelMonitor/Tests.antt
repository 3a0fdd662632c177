-- ===== src/ModelMonitor/Tests.antt =====
-- The theorem on src/models.rs, at a list of two models.
use orihsus.Prelude.{
  ◌≡◌, refl, true, ℕ, String, Option, none, some, List, [], ◌∷◌, Result, ok, is_blank,
  is_whitespace, str_eq, if◌then◌else◌,
}
use orihsus.Config.Types.{ModelSync}
use orihsus.HotReload.Tests.{reloader}
use orihsus.Gateway.Store.{update_models}
use orihsus.ModelMonitor.{ModelOps, eq_model_sync, collect, parse_models, apply_fetched, sync_round}
use orihsus.ModelMonitor.Synced.{IsSynced, sync_round-IsSynced}

-- The parts of the one document that is read below.
pub data Node : Type 0 where
  document data_part : Node
  item : String → Node

abbrev field_of : Node → String → Option Node
field_of document name = if str_eq name "data" then some data_part else none
field_of (item id) name = if str_eq name "id" then some (item id) else none
field_of _ name = none

abbrev array_of : Node → Option (List Node)
array_of data_part = some (item "glm" ∷ item "qwen" ∷ [])
array_of _ = none

abbrev text_of : Node → Option String
text_of (item id) = some id
text_of _ = none

abbrev ops : ModelOps Node
ops = record {
  read = λ body. some document;
  get = field_of;
  as_array = array_of;
  as_text = text_of;
}

abbrev on : ModelSync
on = record { enabled = true; interval = 60 }

abbrev body : Result (List ℕ) String
body = ok []

sync_round-IsSynced_example :
    IsSynced ops reloader.targets.store on on body
      (sync_round ops reloader.targets.store on on body)
sync_round-IsSynced_example = sync_round-IsSynced ops reloader.targets.store on on body

replaced :
    sync_round ops reloader.targets.store on on body
    ≡ update_models reloader.targets.store ("glm" ∷ "qwen" ∷ [])
unfolding sync_round apply_fetched parse_models collect eq_model_sync is_blank is_whitespace
    update_models
replaced = refl
