-- ===== src/Agent/App/Tests.antt =====
-- The start of the Agent and requests to it, and the theorems at them.
use Prim.Native.String as S
use ya_lyceum_go_project_fin.Prelude.{arith, String, ◌≡◌, ◌↔◌, ◌≤◌, refl, len, some}
use ya_lyceum_go_project_fin.Prelude.Texts.{split, lowers_to}
use ya_lyceum_go_project_fin.Errors.{new, ok, err}
use ya_lyceum_go_project_fin.Grpc.Sample.{sample_rpc}
use ya_lyceum_go_project_fin.Float64.{pos}
use ya_lyceum_go_project_fin.Float64.Sample.{Num}
use ya_lyceum_go_project_fin.Config.{Viper}
use ya_lyceum_go_project_fin.Config.Agent.{Config, load}
use ya_lyceum_go_project_fin.Config.Agent.Laws.{IsAgentConfig}
use ya_lyceum_go_project_fin.Orchestrator.Server.Sample.{sample_libs}
use ya_lyceum_go_project_fin.Agent.Tokens.{Jwt, Manager, generate, verify}
use ya_lyceum_go_project_fin.Agent.Middleware.{passed, jwt_auth}
use ya_lyceum_go_project_fin.Agent.App.Secrets.{provide_config-jwt_auth}
use ya_lyceum_go_project_fin.Database.Sample.{print_dashes}
use ya_lyceum_go_project_fin.Agent.Auth.Sample.{
  jwt_with, bob_id, sample_service, sample_jwt, secret,
}
use ya_lyceum_go_project_fin.Agent.Middleware.Laws.{IsBearer}
use ya_lyceum_go_project_fin.Agent.Tasks.{Client, submit_new_task}
use ya_lyceum_go_project_fin.Agent.Tasks.Handlers.{failure_body, accepted_body}
use ya_lyceum_go_project_fin.Agent.App.{
  provided, provide_config, provide_manager, post_calculate, handle, serve,
}
use ya_lyceum_go_project_fin.Agent.App.Laws.{provide_config-provide_manager, serve-IsBearer}

abbrev sample_config : Config
sample_config = record {
  app_env = "test";
  server = record { port = "8080" };
  database = record { dsn = "postgres://host"; pool_max_conns = pos 10 };
  jwt = record { secret = secret; token_ttl = pos 3600000000000 };
  logger = record { level = "info" };
  graceful_timeout = pos 5000000000;
  orchestrator_client = record {
    orchestrator_address = "orchestrator:50051";
    timeout = pos 5000000000;
  };
}

abbrev sample_viper : Viper Config
sample_viper = record {
  getenv = λ key. "";
  unmarshal = λ defaults read. ok sample_config;
  get_string = λ defaults read key. "";
}

sample-provided : provide_config sample_rpc sample_viper ≡ provided sample_config
unfolding provide_config load
sample-provided = refl

provide_config-provide_manager_example :
    IsAgentConfig sample_viper sample_config
    × (32 ≤ len secret)
    × (provide_manager sample_config
        ≡ provided (record { secret_key = secret; token_ttl = pos 3600000000000 }))
provide_config-provide_manager_example =
    provide_config-provide_manager sample_rpc sample_viper sample_config sample-provided

-- Accepts every expression.
abbrev accepting : Client Num
accepting = record {
  submit_expression = λ req. ok (record { task_id = "17" });
  list_user_tasks = λ req. err (new "unused");
  get_task_details = λ req. err (new "unused");
  parse_time = λ s. ok 7;
  zero_time = 0;
}

serve_tests :
    (serve sample_jwt sample_rpc sample_service.jwt_manager accepting sample_libs.parse_uuid 900
        "Bearer signed"
        (post_calculate (some "2 + 2"))
      ≡ (202, accepted_body "17"))
    × (serve sample_jwt sample_rpc sample_service.jwt_manager accepting sample_libs.parse_uuid 900
          ""
          (post_calculate (some "2 + 2"))
        ≡ (401, failure_body "Отсутствует токен авторизации"))
unfolding serve split lowers_to verify submit_new_task
serve_tests = (refl, refl)

serve-IsBearer_example :
    (((serve sample_jwt sample_rpc sample_service.jwt_manager accepting sample_libs.parse_uuid 900
          ""
          (post_calculate (some "2 + 2"))).0
        ≡ 401)
      ↔ ((user_id : String)
          → ¬ IsBearer sample_jwt sample_rpc sample_service.jwt_manager 900 "" user_id))
    × ((client : Client Num)
        → ((user_id : String)
            → ¬ IsBearer sample_jwt sample_rpc sample_service.jwt_manager 900 "" user_id)
        → serve sample_jwt sample_rpc sample_service.jwt_manager accepting sample_libs.parse_uuid
            900 ""
            (post_calculate (some "2 + 2"))
          ≡ serve sample_jwt sample_rpc sample_service.jwt_manager client sample_libs.parse_uuid 900
              ""
              (post_calculate (some "2 + 2")))
    × ((user_id : String)
        → IsBearer sample_jwt sample_rpc sample_service.jwt_manager 900 "" user_id
        → serve sample_jwt sample_rpc sample_service.jwt_manager accepting sample_libs.parse_uuid
            900 ""
            (post_calculate (some "2 + 2"))
          ≡ handle sample_rpc accepting sample_libs.parse_uuid
              (post_calculate (some "2 + 2"))
              (some user_id))
serve-IsBearer_example =
    serve-IsBearer sample_jwt sample_rpc sample_service.jwt_manager accepting sample_libs.parse_uuid
      900 "" (post_calculate (some "2 + 2"))

-- The environment has no JWT_SECRET.
abbrev default_config : Config
default_config = record sample_config {
  app_env = "development";
  jwt = record {
    secret = "default_jwt_secret_please_change_32_chars_long";
    token_ttl = pos 3600000000000;
  };
}

abbrev default_viper : Viper Config
default_viper = record {
  getenv = λ key. "";
  unmarshal = λ settings read. ok default_config;
  get_string = λ settings read key. "";
}

abbrev default_jwt : Jwt
default_jwt = jwt_with "default_jwt_secret_please_change_32_chars_long"

abbrev forger : Manager
forger = record {
  secret_key = "default_jwt_secret_please_change_32_chars_long";
  token_ttl = pos 1000;
}

default-loaded : load sample_rpc default_viper ≡ ok default_config
unfolding load
default-loaded = refl

forged_token : generate default_jwt sample_rpc forger 500 500 bob_id ≡ ok "signed"
unfolding generate print_dashes
forged_token = refl

provide_config-jwt_auth_example :
    (provide_config sample_rpc default_viper ≡ provided default_config)
    × ((m : Manager) × (provide_manager default_config ≡ provided m)
        × (jwt_auth default_jwt sample_rpc m 900 (S.◌++◌ "Bearer " "signed") ≡ passed bob_id))
provide_config-jwt_auth_example =
    provide_config-jwt_auth sample_rpc default_viper default_config default_jwt forger 500 500 900
      bob_id "signed" default-loaded refl refl forged_token (omega arith) (omega arith)
      (ground arith) (λ e. cc)
