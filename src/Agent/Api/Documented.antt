-- ===== src/Agent/Api/Documented.antt =====
-- That every answer of the Agent is one that its documentation describes.
use ya_lyceum_go_project_fin.Prelude.{
  ℕ, String, ◌≡◌, ◌↔◌, false, refl, subst, inl, inr, ◌||◌, Bool-cases, true, Option, none, some,
}
use ya_lyceum_go_project_fin.Errors.{
  invalid_login_format, invalid_password_format, login_already_exists, invalid_credentials, is,
  Result, ok, err,
}
use ya_lyceum_go_project_fin.Float64.{Arith}
use ya_lyceum_go_project_fin.Database.{Uuid, Db, Call}
use ya_lyceum_go_project_fin.Agent.Middleware.{jwt_auth}
use ya_lyceum_go_project_fin.Agent.Middleware.Laws.{IsBearer}
use ya_lyceum_go_project_fin.Agent.App.Laws.{serve-IsBearer}
use ya_lyceum_go_project_fin.Agent.Auth.{AuthService, register, log_in}
use ya_lyceum_go_project_fin.Agent.Auth.Handlers.{
  Credentials, Response, registration_answer, login_answer, handle_register, handle_login,
}
use ya_lyceum_go_project_fin.Agent.Tasks.{Client}
use ya_lyceum_go_project_fin.Agent.App.{
  TaskRoute, post_calculate, get_tasks, get_task, handle, serve,
}
use ya_lyceum_go_project_fin.Agent.Json.{Json, encode_body}
use ya_lyceum_go_project_fin.Agent.Docs.{
  Operation, definition, find_response, documented_calculate, documented_login, documented_register,
  documented_tasks, documented_task,
}
use ya_lyceum_go_project_fin.Agent.Docs.Matching.{is_response}
use ya_lyceum_go_project_fin.Agent.Docs.Responses.{IsDocumented}
use ya_lyceum_go_project_fin.Agent.Api.{
  Request, to_register, to_login, to_task_route, Moment, endpoint, respond,
}
use ya_lyceum_go_project_fin.Agent.Api.Answers.{
  IsAnswerOf, calculate-IsAnswerOf, tasks-IsAnswerOf, task-IsAnswerOf, through-IsAnswerOf,
}

-- An answer of the handlers for the accounts.
abbrev IsAccountAnswer : (F : Type 0) → Operation → Response → Type 0
IsAccountAnswer F op (status, body) = is_response {F = F} op status (encode_body body) ≡ true

module _ {F : Type 0} (s : AuthService) where
  login-IsAccountAnswer :
      (c : Call) (now now' : ℕ) (req : Option Credentials) (db : Db F)
      → IsAccountAnswer F documented_login (handle_login s c now now' req db)
  unfolding handle_login login_answer
  login-IsAccountAnswer c now now' none db = refl
  login-IsAccountAnswer c now now' (some req) db =
      go (log_in s c now now' req.login req.password db)
    where
      go :
          (r : Result (String × String)) → IsAccountAnswer F documented_login (login_answer s.rpc r)
      go (ok (user_id, token)) = refl
      go (err e) = elim (Bool-cases (is invalid_credentials e)) [
        | inl same ↦ rw same
        | inr other ↦ rw other
      ]

  register-IsAccountAnswer :
      (salt : String) (c : Call) (req : Option Credentials) (db : Db F)
      → IsAccountAnswer F documented_register (handle_register s salt c req db).1
  unfolding handle_register registration_answer
  register-IsAccountAnswer salt c none db = refl
  register-IsAccountAnswer salt c (some req) db = go (register s salt c req.login req.password db).1
    where
      go : (r : Result String) → IsAccountAnswer F documented_register (registration_answer s.rpc r)
      go (ok id) = refl
      go (err e) = elim (Bool-cases (is invalid_login_format e || is invalid_password_format e)) [
        | inl bad ↦ rw bad
        | inr fine ↦ elim (Bool-cases (is login_already_exists e)) [
          | inl taken ↦ rw (fine, taken)
          | inr other ↦ rw (fine, other)
        ]
      ]

module _ {F : Type 0} (fl : Arith F) (encode_time : ℕ → Option String) (s : AuthService)
    (client : Client F) (parse_uuid : String → Result Uuid) where
  serve-IsAnswerOf :
      (op : Operation) (now : ℕ) (auth_header : String) (route : TaskRoute)
      → find_response 401 op.responses ≡ some (definition "handler.ErrorResponse")
      → ((user_id : String)
          → IsAnswerOf fl encode_time op (handle s.rpc client parse_uuid route (some user_id)))
      → IsAnswerOf fl encode_time op
          (serve s.jwt s.rpc s.jwt_manager client parse_uuid now auth_header route)
  unfolding serve
  serve-IsAnswerOf op now auth_header route known h =
      through-IsAnswerOf fl encode_time s.rpc client op
        (jwt_auth s.jwt s.rpc s.jwt_manager now auth_header) (handle s.rpc client parse_uuid route)
        known h

  -- The operation asks for a bearer token exactly if the request is to a route for tasks, and there the
  -- status is 401 exactly if the header holds no verified one.
  abbrev pub IsGuarded : Moment → Request → Operation → ℕ → Type 0
  IsGuarded m (to_register req) op status = op.secured ≡ false
  IsGuarded m (to_login req) op status = op.secured ≡ false
  IsGuarded m (to_task_route auth_header route) op status =
      (op.secured ≡ true)
      × ((status ≡ 401)
          ↔ ((user_id : String) → ¬ IsBearer s.jwt s.rpc s.jwt_manager m.now auth_header user_id))

  respond-guard :
      (m : Moment) (auth_header : String) (route : TaskRoute) (db : Db F)
      → ((respond fl encode_time s client parse_uuid m (to_task_route auth_header route) db).0
          ≡ 401)
        ↔ ((user_id : String) → ¬ IsBearer s.jwt s.rpc s.jwt_manager m.now auth_header user_id)
  unfolding respond
  respond-guard m auth_header route db =
      (serve-IsBearer s.jwt s.rpc s.jwt_manager client parse_uuid m.now auth_header route).0

  -- Every answer of the Agent to a request for one of its five routes that can be encoded is one of its
  -- documentation: that has an operation with the method and the path of the route, which has a
  -- response with the status of the answer, and the body has the schema of that response. The
  -- operations of the two routes for accounts ask for no token; those of the three routes for tasks ask
  -- for a bearer token, and there the answer is 401 exactly if the request's header holds no token
  -- that is verified.
  pub respond-IsDocumented :
      (m : Moment) (req : Request) (db : Db F) (j : Json F)
      → (respond fl encode_time s client parse_uuid m req db).1 ≡ some j
      → (d : IsDocumented
          (endpoint req).0
          (endpoint req).1
          (respond fl encode_time s client parse_uuid m req db).0
          j)
        × IsGuarded m req d.operation (respond fl encode_time s client parse_uuid m req db).0
  unfolding respond handle
  respond-IsDocumented m (to_register req) db j h = (
    record {
      operation = documented_register;
      found = refl;
      response =
          let same : encode_body (handle_register s m.salt m.call req db).1.1 ≡ j = cc in
          subst
            (λ x.
              is_response documented_register (handle_register s m.salt m.call req db).1.0 x ≡ true)
            same (register-IsAccountAnswer s m.salt m.call req db);
    },
    refl,
  )
  respond-IsDocumented m (to_login req) db j h = (
    record {
      operation = documented_login;
      found = refl;
      response =
          let same : encode_body (handle_login s m.call m.now m.later req db).1 ≡ j = cc in
          subst
            (λ x.
              is_response documented_login (handle_login s m.call m.now m.later req db).0 x ≡ true)
            same (login-IsAccountAnswer s m.call m.now m.later req db);
    },
    refl,
  )
  respond-IsDocumented m (to_task_route auth_header (post_calculate req)) db j h = (
    record {
      operation = documented_calculate;
      found = refl;
      response =
          (serve-IsAnswerOf documented_calculate m.now auth_header (post_calculate req) refl
              (λ user_id. calculate-IsAnswerOf fl encode_time s.rpc client user_id req)).described
            j h;
    },
    (refl, respond-guard m auth_header (post_calculate req) db),
  )
  respond-IsDocumented m (to_task_route auth_header get_tasks) db j h = (
    record {
      operation = documented_tasks;
      found = refl;
      response =
          (serve-IsAnswerOf documented_tasks m.now auth_header get_tasks refl
              (tasks-IsAnswerOf fl encode_time s.rpc client)).described
            j h;
    },
    (refl, respond-guard m auth_header get_tasks db),
  )
  respond-IsDocumented m (to_task_route auth_header (get_task id)) db j h = (
    record {
      operation = documented_task;
      found = refl;
      response =
          (serve-IsAnswerOf documented_task m.now auth_header (get_task id) refl (λ user_id.
              task-IsAnswerOf fl encode_time s.rpc client parse_uuid user_id id)).described
            j h;
    },
    (refl, respond-guard m auth_header (get_task id) db),
  )
