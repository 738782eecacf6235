-- ===== src/Config/Worker.antt =====
-- internal/worker/config/config.go
use ya_lyceum_go_project_fin.Prelude.{String, not, List, [], ◌∷◌, str_eq, if◌then◌else◌}
use ya_lyceum_go_project_fin.Errors.{new, wrap, sprint, Result, ok, err}
use ya_lyceum_go_project_fin.Grpc.{Rpc, message}
use ya_lyceum_go_project_fin.Float64.{ℤ, is_positive}
use ya_lyceum_go_project_fin.Worker.Calculator.{CalculationTimeConfig}
use ya_lyceum_go_project_fin.Config.{Setting, text_setting, Viper, unmarshalled}

pub record GrpcServerConfig : Type 0 where
  pub port : String

pub record LoggerConfig : Type 0 where
  pub level : String

pub record Config : Type 0 where
  pub app_env : String
  pub grpc_server : GrpcServerConfig
  pub logger : LoggerConfig
  pub graceful_timeout : ℤ
  pub calculation_time : CalculationTimeConfig

abbrev pub defaults : List (String × Setting)
defaults =
    ("APP_ENV", text_setting "development")
    ∷ ("LOG_LEVEL", text_setting "info")
    ∷ ("GRACEFUL_TIMEOUT", text_setting "5s")
    ∷ ("WORKER_GRPC_PORT", text_setting "50052")
    ∷ ("TIME_ADDITION_MS", text_setting "200ms")
    ∷ ("TIME_SUBTRACTION_MS", text_setting "200ms")
    ∷ ("TIME_MULTIPLICATION_MS", text_setting "300ms")
    ∷ ("TIME_DIVISION_MS", text_setting "400ms")
    ∷ ("TIME_EXPONENTIATION_MS", text_setting "500ms")
    ∷ []

-- A delay for additions that is not positive is only logged.
unfoldable pub validate : Config → Result Config
validate cfg =
    if str_eq cfg.grpc_server.port ""
    then err (new "worker config: WORKER_GRPC_PORT не может быть пустым")
    else if not (is_positive cfg.graceful_timeout)
    then err (new "worker config: GRACEFUL_TIMEOUT должен быть положительным")
    else ok cfg

unfoldable pub load : Rpc → Viper Config → Result Config
unfolding validate message
load rpc v = elim (unmarshalled v defaults) [
  | err e ↦
      err (wrap (sprint ("worker config: ошибка разбора конфигурации: " ∷ message rpc e ∷ [])) e)
  | ok cfg ↦ validate cfg
]
