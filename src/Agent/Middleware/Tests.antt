-- ===== src/Agent/Middleware/Tests.antt =====
-- Headers with and without a token, and the theorems at them.
use Prim.Native.String as S
use ya_lyceum_go_project_fin.Prelude.{◌≡◌, ◌↔◌, refl, arith}
use ya_lyceum_go_project_fin.Prelude.Texts.{split, lowers_to}
use ya_lyceum_go_project_fin.Errors.{ok}
use ya_lyceum_go_project_fin.Grpc.Sample.{sample_rpc}
use ya_lyceum_go_project_fin.Database.Sample.{working, two_tasks}
use ya_lyceum_go_project_fin.Agent.Tokens.{verify}
use ya_lyceum_go_project_fin.Agent.Auth.{log_in}
use ya_lyceum_go_project_fin.Agent.Auth.Sample.{
  sample_service, sample_jwt, registering, bob_id, with_bob, bob_registers, bob_token,
}
use ya_lyceum_go_project_fin.Agent.Middleware.{unauthorized, passed, jwt_auth}
use ya_lyceum_go_project_fin.Agent.Middleware.Laws.{IsBearer, jwt_auth_iff, jwt_auth-log_in}

header_tests :
    (jwt_auth sample_jwt sample_rpc sample_service.jwt_manager 900 ""
      ≡ unauthorized "Отсутствует токен авторизации")
    × (jwt_auth sample_jwt sample_rpc sample_service.jwt_manager 900 "Basic signed"
        ≡ unauthorized "Неверный формат токена авторизации")
    × (jwt_auth sample_jwt sample_rpc sample_service.jwt_manager 900 "bEARER "
        ≡ unauthorized "Пустой токен авторизации")
    × (jwt_auth sample_jwt sample_rpc sample_service.jwt_manager 900 "Bearer  signed"
        ≡ unauthorized "Неверный формат токена авторизации")
    × (jwt_auth sample_jwt sample_rpc sample_service.jwt_manager 900 "bearer forged"
        ≡ unauthorized "Невалидный или истекший токен авторизации")
unfolding jwt_auth split lowers_to verify
header_tests = (refl, refl, refl, refl, refl)

jwt_auth_iff_example :
    (jwt_auth sample_jwt sample_rpc sample_service.jwt_manager 900 "bearer signed" ≡ passed bob_id)
    ↔ IsBearer sample_jwt sample_rpc sample_service.jwt_manager 900 "bearer signed" bob_id
jwt_auth_iff_example =
    jwt_auth_iff sample_jwt sample_rpc sample_service.jwt_manager 900 "bearer signed" bob_id

jwt_auth-log_in_example :
    (log_in sample_service working 500 500 "bob" "qwerty" with_bob ≡ ok (bob_id, "signed"))
    × (jwt_auth sample_jwt sample_rpc sample_service.jwt_manager 900 (S.◌++◌ "Bearer " "signed")
        ≡ passed bob_id)
jwt_auth-log_in_example =
    jwt_auth-log_in sample_service "salt" registering working 500 500 900 "bob" "qwerty" two_tasks
      with_bob bob_id "signed" bob_registers refl bob_token (omega arith) (omega arith)
      (ground arith) (λ e. cc)
