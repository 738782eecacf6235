-- ===== src/Agent/App/Laws.antt =====
-- What the start of the Agent and its middleware guarantee to the handlers.
use ya_lyceum_go_project_fin.Prelude.{
  ℕ, String, ◌≡◌, ◌≢◌, ◌↔◌, ◌≤◌, ◌⊎◌, inl, inr, refl, none, some, len, arith,
}
use ya_lyceum_go_project_fin.Errors.{Result, ok, Result-cases}
use ya_lyceum_go_project_fin.Grpc.{Rpc}
use ya_lyceum_go_project_fin.Database.{Uuid}
use ya_lyceum_go_project_fin.Config.{Viper}
use ya_lyceum_go_project_fin.Config.Agent.{Config, load}
use ya_lyceum_go_project_fin.Config.Agent.Laws.{IsAgentConfig, load-IsAgentConfig}
use ya_lyceum_go_project_fin.Agent.Tokens.{Jwt, Manager, new_manager}
use ya_lyceum_go_project_fin.Agent.Middleware.{Passage, unauthorized, passed, jwt_auth}
use ya_lyceum_go_project_fin.Agent.Middleware.Laws.{IsBearer, jwt_auth_iff}
use ya_lyceum_go_project_fin.Agent.Tasks.{Client}
use ya_lyceum_go_project_fin.Agent.Tasks.Handlers.{
  handle_calculate, handle_get_tasks, handle_get_task,
}
use ya_lyceum_go_project_fin.Agent.App.{
  provided, provide_config, provide_manager, TaskRoute, post_calculate, get_tasks, get_task, handle,
  serve,
}

provide_config-load :
    (rpc : Rpc) (v : Viper Config) (cfg : Config)
    → provide_config rpc v ≡ provided cfg
    → (load rpc v ≡ ok cfg) × (32 ≤ len cfg.jwt.secret)
unfolding provide_config
provide_config-load rpc v cfg h = elim (Result-cases (load rpc v)) [
  | inr (e, bad) ↦ cc (rw (bad, provide_config) at h)
  | inl (c, loaded) ↦
      let rest = rw (loaded, provide_config) at h in (ground (arith, loaded), ground arith)
]

-- If the Agent gets as far as to have a configuration, the configuration is usable and its secret has at
-- least 32 bytes even in a test, and the manager of the tokens is made of it without an error.
pub provide_config-provide_manager :
    (rpc : Rpc) (v : Viper Config) (cfg : Config)
    → provide_config rpc v ≡ provided cfg
    → IsAgentConfig v cfg
      × (32 ≤ len cfg.jwt.secret)
      × (provide_manager cfg
          ≡ provided (record { secret_key = cfg.jwt.secret; token_ttl = cfg.jwt.token_ttl }))
unfolding provide_manager new_manager
provide_config-provide_manager rpc v cfg h =
    let (loaded, long) = provide_config-load rpc v cfg h in
    let usable = ((load-IsAgentConfig v rpc cfg).0 loaded).1 in
    (usable, long, ground (arith, usable.token_ttl))

pub Passage-cases :
    (p : Passage)
    → ((m : String) × (p ≡ unauthorized m)) ⊎ ((user_id : String) × (p ≡ passed user_id))
Passage-cases (unauthorized m) = inl (m, refl)
Passage-cases (passed user_id) = inr (user_id, refl)

module _ {F : Type 0} (lib : Jwt) (rpc : Rpc) (manager : Manager) (client : Client F)
    (parse_uuid : String → Result Uuid) where
  handle_authorized :
      (route : TaskRoute) (user_id : String)
      → (handle rpc client parse_uuid route (some user_id)).0 ≢ 401
  unfolding handle handle_calculate handle_get_tasks handle_get_task
  handle_authorized (post_calculate none) user_id h = ground arith
  handle_authorized (post_calculate (some x)) user_id h = ground arith
  handle_authorized get_tasks user_id h = ground arith
  handle_authorized (get_task task_id) user_id h = ground arith

  -- A request to one of the routes for tasks is answered with 401 exactly if its header holds no bearer
  -- token that is verified, and then the answer is the same with every client; with such a token, the
  -- answer is that of the route's handler for the user of the token.
  pub serve-IsBearer :
      (now : ℕ) (auth_header : String) (route : TaskRoute)
      → (((serve lib rpc manager client parse_uuid now auth_header route).0 ≡ 401)
          ↔ ((user_id : String) → ¬ IsBearer lib rpc manager now auth_header user_id))
        × ((client' : Client F)
            → ((user_id : String) → ¬ IsBearer lib rpc manager now auth_header user_id)
            → serve lib rpc manager client parse_uuid now auth_header route
              ≡ serve lib rpc manager client' parse_uuid now auth_header route)
        × ((user_id : String)
            → IsBearer lib rpc manager now auth_header user_id
            → serve lib rpc manager client parse_uuid now auth_header route
              ≡ handle rpc client parse_uuid route (some user_id))
  unfolding serve
  serve-IsBearer now auth_header route = (
    (
      λ refused user_id bearer.
          let let_through = (jwt_auth_iff lib rpc manager now auth_header user_id).1 bearer in
          handle_authorized route user_id (rw (let_through, serve) at refused),
      λ none. elim (Passage-cases (jwt_auth lib rpc manager now auth_header)) [
        | inl (m, stopped) ↦ rw (stopped, serve) refl
        | inr (user_id, let_through) ↦
            absurd
              (none user_id ((jwt_auth_iff lib rpc manager now auth_header user_id).0 let_through))
      ],
    ),
    λ client' none. elim (Passage-cases (jwt_auth lib rpc manager now auth_header)) [
      | inl (m, stopped) ↦ rw (stopped, serve) refl
      | inr (user_id, let_through) ↦
          absurd
            (none user_id ((jwt_auth_iff lib rpc manager now auth_header user_id).0 let_through))
    ],
    λ user_id bearer.
        rw ((jwt_auth_iff lib rpc manager now auth_header user_id).1 bearer, serve) refl,
  )
