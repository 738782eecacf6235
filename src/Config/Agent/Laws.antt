-- ===== src/Config/Agent/Laws.antt =====
-- Which configurations the Agent starts with.
use ya_lyceum_go_project_fin.Prelude.{
  ◌≡◌, ◌≢◌, ◌↔◌, ◌≤◌, inl, inr, true, false, len, str_eq, eq_iff, Bool-cases, arith,
}
use ya_lyceum_go_project_fin.Errors.{Result, ok, Result-cases}
use ya_lyceum_go_project_fin.Grpc.{Rpc}
use ya_lyceum_go_project_fin.Float64.{is_positive}
use ya_lyceum_go_project_fin.Config.{Viper, unmarshalled, is_unset}
use ya_lyceum_go_project_fin.Config.Agent as A
use ya_lyceum_go_project_fin.Config.Given.{IsGiven, is_default_in_test-IsGiven, is_unset-IsGiven}

pub record IsAgentConfig (v : Viper A.Config) (cfg : A.Config) : Type 0 where
  pub port : cfg.server.port ≢ ""
  pub dsn : cfg.database.dsn ≢ ""
  pub dsn_given : IsGiven v A.defaults "POSTGRES_DSN" cfg.database.dsn
  -- The bound of the library counts bytes.
  pub secret : cfg.app_env ≢ "test" → 32 ≤ len cfg.jwt.secret
  pub no_secret_given : cfg.jwt.secret ≡ "" → IsGiven v A.defaults "JWT_SECRET" cfg.jwt.secret
  pub token_ttl : is_positive cfg.jwt.token_ttl ≡ true
  pub address : cfg.orchestrator_client.orchestrator_address ≢ ""
  pub address_given :
      IsGiven v A.defaults "ORCHESTRATOR_GRPC_ADDRESS" cfg.orchestrator_client.orchestrator_address
  pub timeout : is_positive cfg.orchestrator_client.timeout ≡ true

module _ (v : Viper A.Config) where
  -- The condition on the secret.
  abbrev IsSecret : A.Config → Type 0
  IsSecret cfg =
      (cfg.app_env ≢ "test" → 32 ≤ len cfg.jwt.secret)
      × (cfg.jwt.secret ≡ "" → IsGiven v A.defaults "JWT_SECRET" cfg.jwt.secret)

  check_secret-ok :
      (cfg c : A.Config) (rest : Result A.Config)
      → A.check_secret v cfg rest ≡ ok c
      → IsSecret cfg × (rest ≡ ok c)
  unfolding A.check_secret
  check_secret-ok cfg c rest h = (
    (
      ground (arith, eq_iff cfg.app_env "test", eq_iff cfg.jwt.secret ""),
      λ none.
          (is_default_in_test-IsGiven v A.defaults "JWT_SECRET" cfg.jwt.secret).0
            (ground (arith, eq_iff cfg.jwt.secret "")),
    ),
    ground arith,
  )

  check_secret_passes :
      (cfg : A.Config) (rest : Result A.Config) → IsSecret cfg → A.check_secret v cfg rest ≡ rest
  unfolding A.check_secret
  check_secret_passes cfg rest (long, given) =
      let enough : A.is_short cfg ≡ false = ground (arith, long, eq_iff cfg.app_env "test") in
      elim (Bool-cases (str_eq cfg.jwt.secret "")) [
        | inr filled ↦ ground arith
        | inl empty ↦
            let same =
              (is_default_in_test-IsGiven v A.defaults "JWT_SECRET" cfg.jwt.secret).1
                (given ((eq_iff cfg.jwt.secret "").0 empty)) in
            ground arith
      ]

  check_rest-ok :
      (cfg c : A.Config)
      → A.check_rest v cfg ≡ ok c
      → (c ≡ cfg)
        × (is_positive cfg.jwt.token_ttl ≡ true)
        × (is_unset v A.defaults "ORCHESTRATOR_GRPC_ADDRESS"
              cfg.orchestrator_client.orchestrator_address
            ≡ false)
        × (is_positive cfg.orchestrator_client.timeout ≡ true)
  unfolding A.check_rest
  check_rest-ok cfg c h = (ground arith, ground arith, ground arith, ground arith)

  validate-ok :
      (cfg c : A.Config)
      → A.validate v cfg ≡ ok c
      → ((cfg.server.port ≢ "") × (is_unset v A.defaults "POSTGRES_DSN" cfg.database.dsn ≡ false))
        × (A.check_secret v cfg (A.check_rest v cfg) ≡ ok c)
  unfolding A.validate
  validate-ok cfg c h = elim (Bool-cases (str_eq cfg.server.port "")) [
    | inl empty ↦ cc (rw (empty, A.validate) at h)
    | inr filled ↦ elim (Bool-cases (is_unset v A.defaults "POSTGRES_DSN" cfg.database.dsn)) [
      | inl unset ↦ cc (rw (filled, unset, A.validate) at h)
      | inr set ↦ (
        (λ empty. ground (arith, (eq_iff cfg.server.port "").1 empty), set),
        rw (filled, set, A.validate) at h,
      )
    ]
  ]

  validate-IsAgentConfig :
      (cfg c : A.Config) → A.validate v cfg ≡ ok c → (c ≡ cfg) × IsAgentConfig v cfg
  validate-IsAgentConfig cfg c h =
      let ((port, dsn), later) = validate-ok cfg c h in
      let ((long, given), rest) = check_secret-ok cfg c (A.check_rest v cfg) later in
      let (same, ttl, address, timeout) = check_rest-ok cfg c rest in
      let (filled_dsn, given_dsn) =
        (is_unset-IsGiven v A.defaults "POSTGRES_DSN" cfg.database.dsn).0 dsn in
      let (filled_address, given_address) =
        (is_unset-IsGiven v A.defaults "ORCHESTRATOR_GRPC_ADDRESS"
            cfg.orchestrator_client.orchestrator_address).0
          address in
      (
        same,
        record {
          port = port;
          dsn = filled_dsn;
          dsn_given = given_dsn;
          secret = long;
          no_secret_given = given;
          token_ttl = ttl;
          address = filled_address;
          address_given = given_address;
          timeout = timeout;
        },
      )

  IsAgentConfig-validate : (cfg : A.Config) → IsAgentConfig v cfg → A.validate v cfg ≡ ok cfg
  unfolding A.validate A.check_rest
  IsAgentConfig-validate cfg a =
      let dsn =
        (is_unset-IsGiven v A.defaults "POSTGRES_DSN" cfg.database.dsn).1 (a.dsn, a.dsn_given) in
      let address =
        (is_unset-IsGiven v A.defaults "ORCHESTRATOR_GRPC_ADDRESS"
            cfg.orchestrator_client.orchestrator_address).1
          (a.address, a.address_given) in
      let secret = check_secret_passes cfg (A.check_rest v cfg) (a.secret, a.no_secret_given) in
      ground
        (arith, secret, dsn, address, a.port, a.token_ttl, a.timeout, eq_iff cfg.server.port "")

  -- Load of the Agent gives a configuration exactly if viper has it and it is usable.
  pub load-IsAgentConfig :
      (rpc : Rpc) (cfg : A.Config)
      → (A.load rpc v ≡ ok cfg) ↔ ((unmarshalled v A.defaults ≡ ok cfg) × IsAgentConfig v cfg)
  unfolding A.load
  load-IsAgentConfig rpc cfg = (
    λ h. elim (Result-cases (unmarshalled v A.defaults)) [
      | inr (e, bad) ↦ cc (rw (bad, A.load) at h)
      | inl (c, read) ↦
          let valid : A.validate v c ≡ ok cfg = ground (arith, read) in
          let (same, usable) = validate-IsAgentConfig c cfg valid in rw same (read, usable)
    ],
    λ (read, usable). rw (read, A.load) (IsAgentConfig-validate cfg usable),
  )
