-- ===== src/Config/Secret.antt =====
-- `Secret` of src/config.rs: a text that `Debug` does not print.
use orihsus.Prelude.{String}

pub record Secret : Type 0 where
  pub as_str : String
