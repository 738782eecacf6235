-- ===== src/Config.antt =====
-- The configurations of internal/agent/config, internal/orchestrator/config and
-- internal/worker/config, over github.com/spf13/viper as a parameter.
pub mod Agent
pub mod Orchestrator
pub mod Worker
pub mod Given
mod Tests
use ya_lyceum_go_project_fin.Prelude.{ℕ, String, ◌≡◌, ◌≢◌, Bool, not, ◌||◌, ◌&&◌, List, str_eq}
use ya_lyceum_go_project_fin.Errors.{Result}

-- The values that `SetDefault` is given.
pub data Setting : Type 0 where
  text_setting : String → Setting
  int_setting : ℕ → Setting

-- `os.Getenv`; and `Unmarshal` and `GetString` of a `viper.Viper` with AutomaticEnv, after so many
-- `SetDefault`s, and with `true` after `ReadInConfig` of the file `.env`, whose errors are ignored.
pub record Viper (C : Type 0) : Type 0 where
  pub getenv : String → String
  pub unmarshal : List (String × Setting) → Bool → Result C
  pub get_string : List (String × Setting) → Bool → String → String

module _ {C : Type 0} (v : Viper C) (defaults : List (String × Setting)) where
  abbrev pub is_test : Bool
  is_test = str_eq (v.getenv "APP_ENV") "test"

  -- The file is read outside of the tests.
  abbrev pub unmarshalled : Result C
  unmarshalled = v.unmarshal defaults (not is_test)

  abbrev pub looked_up : String → String
  looked_up key = v.get_string defaults (not is_test) key

  -- In a test, a value that is not that of the environment.
  abbrev pub is_default_in_test : String → String → Bool
  is_default_in_test key value =
      is_test && str_eq value (looked_up key) && not (str_eq (v.getenv key) value)

  abbrev pub is_unset : String → String → Bool
  is_unset key value = str_eq value "" || is_default_in_test key value
