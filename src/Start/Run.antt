-- ===== src/Start/Run.antt =====
-- How `Run` of internal/agent/app/app.go, internal/orchestrator/app/app.go and internal/worker/app/app.go
-- ends, with the logger of internal/pkg/logger/logger.go, over zap and fx as parameters.
use ya_lyceum_go_project_fin.Prelude.{
  String, ◌≡◌, ◌≢◌, ◌↔◌, inl, inr, refl, subst, Bool, true, Option, none, some, [], ◌∷◌, str_eq,
  arith, Option-cases, if◌then◌else◌, ℕ,
}
use ya_lyceum_go_project_fin.Errors.{
  canceled, Error, wrap, sprint, is, Result, ok, err, Result-cases,
}
use ya_lyceum_go_project_fin.Grpc.{Rpc, message}
use ya_lyceum_go_project_fin.Config.{Viper, unmarshalled}
use ya_lyceum_go_project_fin.Config.Agent as A
use ya_lyceum_go_project_fin.Config.Agent.Laws.{IsAgentConfig, load-IsAgentConfig}
use ya_lyceum_go_project_fin.Config.Worker as W
use ya_lyceum_go_project_fin.Config.Orchestrator as O
use ya_lyceum_go_project_fin.Config.Orchestrator.Laws.{
  IsOrchestratorConfig, load-IsOrchestratorConfig,
}

-- `strings.ToLower`, `zapcore.ParseLevel`, and `Build` of the configuration for production or for
-- development with a level.
pub record Zap (L : Type 0) : Type 0 where
  pub to_lower : String → String
  pub parse_level : String → Result L
  pub build : Bool → L → Option Error

abbrev built : Option Error → Result (Unit {0})
built none = ok tt
built (some e) = err e

unfoldable pub new_logger : {L : Type 0} → Rpc → Zap L → String → String → Result (Unit {0})
unfolding message
new_logger rpc zap level app_env = elim (zap.parse_level (zap.to_lower level)) [
  | err e ↦
      err (wrap (sprint ("неверный уровень логирования '" ∷ level ∷ "': " ∷ message rpc e ∷ [])) e)
  | ok l ↦ built (zap.build (str_eq app_env "production") l)
]

-- `log.Fatal`, `os.Exit` and the end of `Run`.
pub data Ending : Type 0 where
  died : String → Ending
  exited : ℕ → Ending
  returned : Ending

-- What becomes of the process while fx starts, and while it waits for `fxApp.Done()`: it goes on, with the
-- error that fx has then, or a `log.Fatal` of a constructor, of the invoked function or of the
-- goroutine of the server ends it.
pub data Outcome : Type 0 where
  went_on : Option Error → Outcome
  killed : String → Outcome

-- `fxApp.Err()` after `fxApp.Done()`.
abbrev stopped : Outcome → Ending
stopped (killed m) = died m
stopped (went_on none) = returned
stopped (went_on (some e)) = if is canceled e then returned else exited 1

-- `fxApp.Start`.
abbrev started : Outcome → Outcome → Ending
started (killed m) waiting = died m
started (went_on (some e)) waiting = exited 1
started (went_on none) waiting = stopped waiting

abbrev with_logger : String → Result (Unit {0}) → Outcome → Outcome → Ending
with_logger no_logger (err e) starting waiting = died no_logger
with_logger no_logger (ok _) starting waiting = started starting waiting

module _ {L : Type 0} (rpc : Rpc) (zap : Zap L) (starting waiting : Outcome) where
  -- `Run` with the texts of its errors, on what `Load` gives, and the level and the environment of that.
  unfoldable pub run_process :
      {C : Type 0} → String → String → (C → String) → (C → String) → Result C → Ending
  run_process no_config no_logger level app_env (err e) = died no_config
  run_process no_config no_logger level app_env (ok cfg) =
      with_logger no_logger (new_logger rpc zap (level cfg) (app_env cfg)) starting waiting

  abbrev pub run_agent : Viper A.Config → Ending
  run_agent v =
      run_process "Не удалось загрузить начальную конфигурацию" "Не удалось инициализировать логгер"
        (λ cfg. cfg.logger.level) (λ cfg. cfg.app_env) (A.load rpc v)

  abbrev pub run_orchestrator : Viper O.Config → Ending
  run_orchestrator v =
      run_process "Не удалось загрузить начальную конфигурацию Оркестратора"
        "Не удалось инициализировать логгер Оркестратора" (λ cfg. cfg.logger.level)
        (λ cfg. cfg.app_env) (O.load rpc v)

  abbrev pub run_worker : Viper W.Config → Ending
  run_worker v =
      run_process "Worker: не удалось загрузить начальную конфигурацию"
        "Worker: не удалось инициализировать логгер" (λ cfg. cfg.logger.level) (λ cfg. cfg.app_env)
        (W.load rpc v)

  -- A logger can be made, fx starts, and nothing goes wrong until the signal.
  pub record IsSmooth (level app_env : String) : Type 0 where
    pub level_value : L
    pub parsed : zap.parse_level (zap.to_lower level) ≡ ok level_value
    pub built_logger : zap.build (str_eq app_env "production") level_value ≡ none
    pub start_ok : starting ≡ went_on none
    pub stop_ok : (m : String) → waiting ≢ killed m
    pub stop_error : (e : Error) → waiting ≡ went_on (some e) → is canceled e ≡ true

  started-returned :
      (a b : Outcome)
      → (started a b ≡ returned) ↔ (
          (a ≡ went_on none)
          × ((m : String) → b ≢ killed m)
          × ((e : Error) → b ≡ went_on (some e) → is canceled e ≡ true))
  started-returned (killed m) b = (λ h. cc, λ (h, _, _). cc)
  started-returned (went_on (some e)) b = (λ h. cc, λ (h, _, _). cc)
  started-returned (went_on none) (killed m) = (λ h. cc, λ (_, h, _). absurd (h m refl))
  started-returned (went_on none) (went_on none) = (λ h. (refl, λ m n. cc, λ e n. cc), λ h. refl)
  started-returned (went_on none) (went_on (some e)) =
      (λ h. (refl, λ m n. cc, λ e' same. ground arith), λ (_, _, h). rw (h e refl))

  with_logger-IsSmooth :
      (no_logger level app_env : String)
      → (with_logger no_logger (new_logger rpc zap level app_env) starting waiting ≡ returned)
        ↔ IsSmooth level app_env
  unfolding new_logger
  with_logger-IsSmooth no_logger level app_env = (
    λ h. elim (Result-cases (zap.parse_level (zap.to_lower level))) [
      | inr (e, bad) ↦ cc (rw (bad, new_logger) at h)
      | inl (l, parsed) ↦ elim (Option-cases (zap.build (str_eq app_env "production") l)) [
        | inr (e, bad) ↦ cc (rw (parsed, bad, new_logger) at h)
        | inl made ↦
            let (start_ok, stop_ok, stop_error) =
              (started-returned starting waiting).0 (rw (parsed, made, new_logger) at h) in
            record {
              level_value = l;
              parsed = parsed;
              built_logger = made;
              start_ok = start_ok;
              stop_ok = stop_ok;
              stop_error = stop_error;
            }
      ]
    ],
    λ s.
        rw (s.parsed, s.built_logger, new_logger)
          ((started-returned starting waiting).1 (s.start_ok, s.stop_ok, s.stop_error)),
  )

  run_process-IsSmooth :
      {C : Type 0} (no_config no_logger : String) (level app_env : C → String) (r : Result C)
      → (run_process no_config no_logger level app_env r ≡ returned)
        ↔ ((cfg : C) × (r ≡ ok cfg) × IsSmooth (level cfg) (app_env cfg))
  unfolding run_process
  run_process-IsSmooth no_config no_logger level app_env (err e) = (λ h. cc, λ (cfg, h, s). cc)
  run_process-IsSmooth no_config no_logger level app_env (ok c) = (
    λ h. (c, refl, (with_logger-IsSmooth no_logger (level c) (app_env c)).0 h),
    λ (cfg, h, s).
        let same : cfg ≡ c = cc in
        (with_logger-IsSmooth no_logger (level c) (app_env c)).1
          (subst (λ x. IsSmooth (level x) (app_env x)) same s),
  )

  -- `Run` of each process returns, so that it ends with the status 0, exactly if Load gives a configuration,
  -- whose level of logging is known, a logger can be made of it, fx starts with no error, nothing ends
  -- the process before a signal, and the error that fx has then, if any, is that the context was cancelled;
  -- for the Agent and the Orchestrator Load gives a configuration exactly if viper reads it and it is
  -- usable.
  pub run_returned :
      (v : Viper A.Config) (w : Viper O.Config) (u : Viper W.Config)
      → ((run_agent v ≡ returned) ↔ (
          (cfg : A.Config) × ((unmarshalled v A.defaults ≡ ok cfg) × IsAgentConfig v cfg)
          × IsSmooth cfg.logger.level cfg.app_env))
        × ((run_orchestrator w ≡ returned) ↔ (
            (cfg : O.Config) × ((unmarshalled w O.defaults ≡ ok cfg) × IsOrchestratorConfig w cfg)
            × IsSmooth cfg.logger.level cfg.app_env))
        × ((run_worker u ≡ returned)
            ↔ ((cfg : W.Config) × (W.load rpc u ≡ ok cfg) × IsSmooth cfg.logger.level cfg.app_env))
  run_returned v w u = (
    (
      λ h.
          let (cfg, loaded, s) = (run_process-IsSmooth _ _ _ _ (A.load rpc v)).0 h in
          (cfg, (load-IsAgentConfig v rpc cfg).0 loaded, s),
      λ (cfg, usable, s).
          (run_process-IsSmooth _ _ (λ c. c.logger.level) (λ c. c.app_env) (A.load rpc v)).1
            (cfg, (load-IsAgentConfig v rpc cfg).1 usable, s),
    ),
    (
      λ h.
          let (cfg, loaded, s) = (run_process-IsSmooth _ _ _ _ (O.load rpc w)).0 h in
          (cfg, (load-IsOrchestratorConfig w rpc cfg).0 loaded, s),
      λ (cfg, usable, s).
          (run_process-IsSmooth _ _ (λ c. c.logger.level) (λ c. c.app_env) (O.load rpc w)).1
            (cfg, (load-IsOrchestratorConfig w rpc cfg).1 usable, s),
    ),
    run_process-IsSmooth _ _ (λ c. c.logger.level) (λ c. c.app_env) (W.load rpc u),
  )
