-- ===== src/Config/Orchestrator/Laws.antt =====
-- Which configurations the Orchestrator starts with.
use ya_lyceum_go_project_fin.Prelude.{◌≡◌, ◌≢◌, ◌↔◌, inl, inr, refl, true, false, Bool-cases, arith}
use ya_lyceum_go_project_fin.Errors.{ok, Result-cases}
use ya_lyceum_go_project_fin.Grpc.{Rpc}
use ya_lyceum_go_project_fin.Float64.{is_positive}
use ya_lyceum_go_project_fin.Config.{Viper, unmarshalled, is_unset}
use ya_lyceum_go_project_fin.Config.Orchestrator as O
use ya_lyceum_go_project_fin.Config.Given.{IsGiven, is_unset-IsGiven}

pub record IsOrchestratorConfig (v : Viper O.Config) (cfg : O.Config) : Type 0 where
  pub port : cfg.grpc_server.port ≢ ""
  pub port_given : IsGiven v O.defaults "ORCHESTRATOR_GRPC_PORT" cfg.grpc_server.port
  pub dsn : cfg.database.dsn ≢ ""
  pub dsn_given : IsGiven v O.defaults "POSTGRES_DSN" cfg.database.dsn
  pub address : cfg.worker_client.worker_address ≢ ""
  pub address_given : IsGiven v O.defaults "WORKER_GRPC_ADDRESS" cfg.worker_client.worker_address
  pub timeout : is_positive cfg.worker_client.timeout ≡ true
  pub graceful_timeout : is_positive cfg.graceful_timeout ≡ true

module _ (v : Viper O.Config) where
  validate-ok :
      (cfg c : O.Config)
      → O.validate v cfg ≡ ok c
      → (c ≡ cfg)
        × (is_unset v O.defaults "ORCHESTRATOR_GRPC_PORT" cfg.grpc_server.port ≡ false)
        × (is_unset v O.defaults "POSTGRES_DSN" cfg.database.dsn ≡ false)
        × (is_unset v O.defaults "WORKER_GRPC_ADDRESS" cfg.worker_client.worker_address ≡ false)
        × (is_positive cfg.worker_client.timeout ≡ true)
        × (is_positive cfg.graceful_timeout ≡ true)
  unfolding O.validate
  validate-ok cfg c h =
      elim (Bool-cases (is_unset v O.defaults "ORCHESTRATOR_GRPC_PORT" cfg.grpc_server.port)) [
        | inl unset ↦ cc (rw (unset, O.validate) at h)
        | inr port ↦ elim (Bool-cases (is_unset v O.defaults "POSTGRES_DSN" cfg.database.dsn)) [
          | inl unset ↦ cc (rw (port, unset, O.validate) at h)
          | inr dsn ↦
              elim (Bool-cases
                (is_unset v O.defaults "WORKER_GRPC_ADDRESS" cfg.worker_client.worker_address)) [
                  | inl unset ↦ cc (rw (port, dsn, unset, O.validate) at h)
                  | inr address ↦
                      let rest = rw (port, dsn, address, O.validate) at h in
                      (ground arith, port, dsn, address, ground arith, ground arith)
                ]
        ]
      ]

  validate-IsOrchestratorConfig :
      (cfg c : O.Config) → O.validate v cfg ≡ ok c → (c ≡ cfg) × IsOrchestratorConfig v cfg
  validate-IsOrchestratorConfig cfg c h =
      let (same, port, dsn, address, timeout, graceful) = validate-ok cfg c h in
      let (filled_port, given_port) =
        (is_unset-IsGiven v O.defaults "ORCHESTRATOR_GRPC_PORT" cfg.grpc_server.port).0 port in
      let (filled_dsn, given_dsn) =
        (is_unset-IsGiven v O.defaults "POSTGRES_DSN" cfg.database.dsn).0 dsn in
      let (filled_address, given_address) =
        (is_unset-IsGiven v O.defaults "WORKER_GRPC_ADDRESS" cfg.worker_client.worker_address).0
          address in
      (
        same,
        record {
          port = filled_port;
          port_given = given_port;
          dsn = filled_dsn;
          dsn_given = given_dsn;
          address = filled_address;
          address_given = given_address;
          timeout = timeout;
          graceful_timeout = graceful;
        },
      )

  IsOrchestratorConfig-validate :
      (cfg : O.Config) → IsOrchestratorConfig v cfg → O.validate v cfg ≡ ok cfg
  unfolding O.validate
  IsOrchestratorConfig-validate cfg a =
      let port =
        (is_unset-IsGiven v O.defaults "ORCHESTRATOR_GRPC_PORT" cfg.grpc_server.port).1
          (a.port, a.port_given) in
      let dsn =
        (is_unset-IsGiven v O.defaults "POSTGRES_DSN" cfg.database.dsn).1 (a.dsn, a.dsn_given) in
      let address =
        (is_unset-IsGiven v O.defaults "WORKER_GRPC_ADDRESS" cfg.worker_client.worker_address).1
          (a.address, a.address_given) in
      rw (port, dsn, address, a.timeout, a.graceful_timeout, O.validate) refl

  -- Load of the Orchestrator gives a configuration exactly if viper has it and it is usable.
  pub load-IsOrchestratorConfig :
      (rpc : Rpc) (cfg : O.Config)
      → (O.load rpc v ≡ ok cfg)
        ↔ ((unmarshalled v O.defaults ≡ ok cfg) × IsOrchestratorConfig v cfg)
  unfolding O.load
  load-IsOrchestratorConfig rpc cfg = (
    λ h. elim (Result-cases (unmarshalled v O.defaults)) [
      | inr (e, bad) ↦ cc (rw (bad, O.load) at h)
      | inl (c, read) ↦
          let valid : O.validate v c ≡ ok cfg = ground (arith, read) in
          let (same, usable) = validate-IsOrchestratorConfig c cfg valid in rw same (read, usable)
    ],
    λ (read, usable). rw (read, O.load) (IsOrchestratorConfig-validate cfg usable),
  )
