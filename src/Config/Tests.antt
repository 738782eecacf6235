-- ===== src/Config/Tests.antt =====
-- Configurations from the defaults and in a test, and the theorems at them.
use ya_lyceum_go_project_fin.Prelude.{String, ◌≡◌, refl, decimal, str_eq, if◌then◌else◌}
use ya_lyceum_go_project_fin.Errors.{new, ok, err}
use ya_lyceum_go_project_fin.Grpc.Sample.{sample_rpc}
use ya_lyceum_go_project_fin.Float64.{pos}
use ya_lyceum_go_project_fin.Worker.Sample.{delays}
use ya_lyceum_go_project_fin.Config.{Viper}
use ya_lyceum_go_project_fin.Config.Agent as A
use ya_lyceum_go_project_fin.Config.Orchestrator as O
use ya_lyceum_go_project_fin.Config.Worker as W
use ya_lyceum_go_project_fin.Prelude.{ℕ, ◌↔◌, refl, none, some, str_eq, if◌then◌else◌}
use ya_lyceum_go_project_fin.Errors.{canceled, sentinel, is}
use ya_lyceum_go_project_fin.Config.{unmarshalled}
use ya_lyceum_go_project_fin.Config.Agent.Laws.{IsAgentConfig}
use ya_lyceum_go_project_fin.Config.Orchestrator.Laws.{IsOrchestratorConfig}
use ya_lyceum_go_project_fin.Start.Run.{
  Zap, Outcome, went_on, died, exited, returned, new_logger, run_process, run_agent,
  run_orchestrator, run_worker, IsSmooth, run_returned,
}

-- No variable is set.
abbrev unset_viper : {C : Type 0} → C → Viper C
unset_viper cfg = record {
  getenv = λ key. "";
  unmarshal = λ defaults read. ok cfg;
  get_string = λ defaults read key. "";
}

-- A test in which only APP_ENV is set, and viper gives the value for every key.
abbrev test_viper : {C : Type 0} → String → C → Viper C
test_viper value cfg = record {
  getenv = λ key. if str_eq key "APP_ENV" then "test" else "";
  unmarshal = λ defaults read. ok cfg;
  get_string = λ defaults read key. value;
}

abbrev agent_config : A.Config
agent_config = record {
  app_env = "development";
  server = record { port = "8080" };
  database = record { dsn = "postgres://host"; pool_max_conns = pos 10 };
  jwt = record { secret = "0123456789abcdef0123456789abcdef"; token_ttl = pos 3600000000000 };
  logger = record { level = "info" };
  graceful_timeout = pos 5000000000;
  orchestrator_client = record {
    orchestrator_address = "orchestrator:50051";
    timeout = pos 5000000000;
  };
}

abbrev orchestrator_config : O.Config
orchestrator_config = record {
  app_env = "development";
  grpc_server = record { port = "50051" };
  database = record { dsn = "postgres://host"; pool_max_conns = pos 10 };
  logger = record { level = "info" };
  graceful_timeout = pos 5000000000;
  worker_client = record { worker_address = "worker:50052"; timeout = pos 5000000000 };
}

abbrev worker_config : W.Config
worker_config = record {
  app_env = "development";
  grpc_server = record { port = "" };
  logger = record { level = "info" };
  graceful_timeout = pos 5000000000;
  calculation_time = delays;
}

load_tests :
    (A.load sample_rpc
        (unset_viper (record agent_config { jwt = record { secret = "short"; token_ttl = pos 1 } }))
      ≡ err (new "JWT_SECRET должен быть не менее 32 символов (текущая длина: 5)"))
    × (A.load sample_rpc (test_viper "postgres://host" agent_config)
        ≡ err (
            new
              "POSTGRES_DSN для Агента не установлен или равен дефолтному в тесте (текущий: 'postgres://host', ожидался из env: '')"))
    × (O.load sample_rpc (test_viper "50051" orchestrator_config)
        ≡ err (new "ORCHESTRATOR_GRPC_PORT: ожидалось '' из env, получено '50051'"))
    × (W.load sample_rpc (unset_viper worker_config)
        ≡ err (new "worker config: WORKER_GRPC_PORT не может быть пустым"))
unfolding A.load A.check_secret O.load W.load decimal
load_tests = (refl, refl, refl, refl)

-- Knows the level `info`, and builds every logger.
abbrev sample_zap : Zap ℕ
sample_zap = record {
  to_lower = λ s. s;
  parse_level = λ s. if str_eq s "info" then ok 0 else err (new "unrecognized level");
  build = λ production level. none;
}

abbrev cancelled : Outcome
cancelled = went_on (some (sentinel canceled))

run_tests :
    (run_agent sample_rpc sample_zap (went_on none) cancelled (unset_viper agent_config) ≡ returned)
    × (run_agent sample_rpc sample_zap
          (went_on none)
          cancelled
          (unset_viper (record agent_config { logger = record { level = "loud" } }))
        ≡ died "Не удалось инициализировать логгер")
    × (run_agent sample_rpc sample_zap
          (went_on (some (new "refused")))
          cancelled
          (unset_viper agent_config)
        ≡ exited 1)
    × (run_worker sample_rpc sample_zap (went_on none) cancelled (unset_viper worker_config)
        ≡ died "Worker: не удалось загрузить начальную конфигурацию")
unfolding run_process new_logger is A.load W.load
run_tests = (refl, refl, refl, refl)

run_returned_example :
    ((run_agent sample_rpc sample_zap (went_on none) cancelled (unset_viper agent_config)
        ≡ returned)
      ↔ ((cfg : A.Config) × ((unmarshalled (unset_viper agent_config) A.defaults ≡ ok cfg)
            × IsAgentConfig (unset_viper agent_config) cfg)
          × IsSmooth sample_rpc sample_zap (went_on none) cancelled cfg.logger.level cfg.app_env))
    × ((run_orchestrator sample_rpc sample_zap
            (went_on none)
            cancelled
            (unset_viper orchestrator_config)
          ≡ returned)
        ↔ ((cfg : O.Config) × ((unmarshalled (unset_viper orchestrator_config) O.defaults ≡ ok cfg)
              × IsOrchestratorConfig (unset_viper orchestrator_config) cfg)
            × IsSmooth sample_rpc sample_zap (went_on none) cancelled cfg.logger.level cfg.app_env))
    × ((run_worker sample_rpc sample_zap (went_on none) cancelled (unset_viper worker_config)
          ≡ returned)
        ↔ ((cfg : W.Config) × (W.load sample_rpc (unset_viper worker_config) ≡ ok cfg)
            × IsSmooth sample_rpc sample_zap (went_on none) cancelled cfg.logger.level cfg.app_env))
run_returned_example =
    run_returned sample_rpc sample_zap (went_on none) cancelled (unset_viper agent_config)
      (unset_viper orchestrator_config) (unset_viper worker_config)
