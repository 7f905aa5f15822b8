-- ===== src/Config.antt =====
-- crates/gputools-replay/src/config.rs: the replayer's configuration and the environment variables that
-- it owns. The environment is the function that reads it; `u64::to_string` is a parameter.
use text.Mathlib.Text.{◌==◌ as str_eq}
use gputools_replay.Prelude.{ℕ, String, Bool, if◌then◌else◌, Option, none, some, ◌≡◌, arith}

pub record ReplayerConfig : Type 0 where
  pub force_load_unused_resources : Bool
  pub ignore_unused_resources : Bool
  pub device_registry_id : Option ℕ

abbrev pub Environment : Type 0
Environment = String → Option String

-- `std::env::set_var` and `std::env::remove_var`
abbrev pub set_var : String → String → Environment → Environment
set_var name value env asked = if str_eq asked name then some value else env asked

abbrev pub remove_var : String → Environment → Environment
remove_var name env asked = if str_eq asked name then none else env asked

abbrev pub force_var : String
force_var = "MTLREPLAYER_FORCE_LOAD_UNUSED_RESOURCE"

abbrev pub ignore_var : String
ignore_var = "MTLREPLAYER_IGNORE_UNUSED_RESOURCE"

abbrev pub registry_var : String
registry_var = "MTLREPLAYER_OVERRIDE_DEVICE_REGISTRY_ID"

abbrev pub reconcile : String → Bool → Environment → Environment
reconcile name on env = if on then set_var name "1" env else remove_var name env

module _ (to_string : ℕ → String) (config : ReplayerConfig) where
  -- `ReplayerConfig::apply_env`, which is all that `Session::configure_env` does
  unfoldable pub apply_env : Environment → Environment
  apply_env env =
      let forced = reconcile force_var config.force_load_unused_resources env in
      let ignored = reconcile ignore_var config.ignore_unused_resources forced in
      elim config.device_registry_id [
        | some id ↦ set_var registry_var (to_string id) ignored
        | none ↦ remove_var registry_var ignored
      ]

  -- What the configuration says of a variable that it owns.
  abbrev pub wanted : String → Option String → Option String
  wanted name before =
      if str_eq name registry_var
      then elim config.device_registry_id [ some id ↦ some (to_string id) | none ↦ none ]
      else if str_eq name ignore_var
      then (if config.ignore_unused_resources then some "1" else none)
      else if str_eq name force_var
      then (if config.force_load_unused_resources then some "1" else none)
      else before

  -- After `apply_env` each of the three owned variables has the value that the configuration asks for,
  -- or none, whatever it was before, and every other variable is as it was.
  pub apply_env-get :
      (env : Environment) (name : String) → apply_env env name ≡ wanted name (env name)
  unfolding apply_env
  apply_env-get env name = ground arith
