-- ===== src/Agent/Auth/Tests.antt =====
-- A registration and logins after it, and the theorems at them.
use ya_lyceum_go_project_fin.Prelude.{String, ◌≡◌, ◌↔◌, refl, true, some, arith}
use ya_lyceum_go_project_fin.Errors.{
  text, invalid_credentials, invalid_login_format, sentinel, ok, err,
}
use ya_lyceum_go_project_fin.Grpc.Sample.{sample_rpc}
use ya_lyceum_go_project_fin.Database.Sample.{working, two_tasks}
use ya_lyceum_go_project_fin.Agent.Hasher.{hash}
use ya_lyceum_go_project_fin.Agent.Users.{is_login_taken, create_user}
use ya_lyceum_go_project_fin.Agent.Auth.{matches_login, register}
use ya_lyceum_go_project_fin.Agent.Auth.Handlers.{error_body, handle_register, handle_login}
use ya_lyceum_go_project_fin.Agent.Auth.Sample.{
  agent, bob_id, with_bob, bob_registers, sample_service, sample_bcrypt, registering,
}
use ya_lyceum_go_project_fin.Agent.Auth.Laws.{IsRegistered, register-IsRegistered}
use ya_lyceum_go_project_fin.Agent.Auth.Statuses.{
  HasNoAccess, handle_register_too_long, handle_login_unauthorized,
}

creating_bob : create_user sample_rpc registering "bob" "qwerty" two_tasks ≡ (with_bob, ok 30)
unfolding agent
creating_bob = refl

bad_login :
    register sample_service "salt" registering "b!" "qwerty" two_tasks
    ≡ (two_tasks, err (sentinel invalid_login_format))
unfolding agent
bad_login = refl

login_violation : is_login_taken registering.violation ≡ true
unfolding agent
login_violation = refl

bob_fits : matches_login "bob" ≡ true
unfolding agent
bob_fits = refl

alice_fits : matches_login "alice" ≡ true
unfolding agent
alice_fits = refl

hashed : hash sample_bcrypt sample_rpc sample_service.hasher "salt" "qwerty" ≡ ok "qwerty"
unfolding agent
hashed = refl

register-IsRegistered_example :
    IsRegistered sample_service "salt" registering "bob" "qwerty" two_tasks with_bob bob_id
register-IsRegistered_example =
    register-IsRegistered sample_service "salt" registering "bob" "qwerty" two_tasks with_bob bob_id
      bob_registers

handle_login_unauthorized_example :
    (((handle_login sample_service working 500 500
          (some (record { login = "bob"; password = "qwertz" }))
          with_bob).0
        ≡ 401)
      ↔ HasNoAccess sample_service "bob" "qwertz" with_bob)
    × ((handle_login sample_service working 500 500
            (some (record { login = "bob"; password = "qwertz" }))
            with_bob
          ≡ (401, error_body (text invalid_credentials)))
        ↔ HasNoAccess sample_service "bob" "qwertz" with_bob)
handle_login_unauthorized_example =
    handle_login_unauthorized sample_service working 500 500 "bob" "qwertz" with_bob refl

-- 80 bytes
abbrev long_password : String
long_password = "01234567890123456789012345678901234567890123456789012345678901234567890123456789"

handle_register_too_long_example :
    handle_register sample_service "salt" registering
      (some (record { login = "bob"; password = long_password }))
      two_tasks
    ≡ (two_tasks, (500, error_body "Ошибка регистрации"))
handle_register_too_long_example =
    handle_register_too_long sample_service "salt" registering "bob" long_password two_tasks
      bob_fits (omega arith)
