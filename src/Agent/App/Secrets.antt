-- ===== src/Agent/App/Secrets.antt =====
-- The secret that the Agent starts with.
use Prim.Native.String as S
use ya_lyceum_go_project_fin.Prelude.{
  ℕ, ◌≤◌, ◌<◌, String, ◌≡◌, ◌≢◌, refl, sym, subst, ltb, ◌∙◌, false, Option, none, some, List, [],
  ◌∷◌, len, str_eq, if◌then◌else◌,
}
use ya_lyceum_go_project_fin.Prelude.Texts.{HasNoSpace}
use ya_lyceum_go_project_fin.Errors.{ok}
use ya_lyceum_go_project_fin.Grpc.{Rpc}
use ya_lyceum_go_project_fin.Config.{Setting, text_setting, Viper}
use ya_lyceum_go_project_fin.Config.Agent.{Config, defaults, load}
use ya_lyceum_go_project_fin.Agent.Tokens.{Jwt, Manager, generate, verify-generate, add_duration}
use ya_lyceum_go_project_fin.Agent.Middleware.{passed, jwt_auth}
use ya_lyceum_go_project_fin.Agent.Middleware.Laws.{bearer-jwt_auth}
use ya_lyceum_go_project_fin.Agent.App.{provided, provide_config, provide_manager}
use ya_lyceum_go_project_fin.Agent.App.Laws.{provide_config-provide_manager}

abbrev pub setting_of : String → List (String × Setting) → Option Setting
setting_of key [] = none
setting_of key ((k, s) ∷ rest) = if str_eq key k then some s else setting_of key rest

provide_config_default :
    (rpc : Rpc) (v : Viper Config) (cfg : Config)
    → load rpc v ≡ ok cfg
    → setting_of "JWT_SECRET" defaults ≡ some (text_setting cfg.jwt.secret)
    → provide_config rpc v ≡ provided cfg
unfolding provide_config
provide_config_default rpc v cfg loaded default =
    let this : "default_jwt_secret_please_change_32_chars_long" ≡ cfg.jwt.secret = cc in
    let other : str_eq cfg.jwt.secret "default-secret-key-please-change" ≡ false =
      subst (λ s. str_eq s "default-secret-key-please-change" ≡ false) this refl in
    let long : ltb (len cfg.jwt.secret) 32 ≡ false =
      subst (λ s. ltb (len s) 32 ≡ false) this refl in
    rw (loaded, other, long, provide_config) refl

-- If no other JWT_SECRET is set, so that Load gives a configuration with the default one of
-- the source, the Agent starts with it; and whoever signs a token with that text, for any user
-- and with any lifetime, has a request that passes the middleware as that user while the token
-- lasts, if the token has no space and is not empty.
pub provide_config-jwt_auth :
    (rpc : Rpc) (v : Viper Config) (cfg : Config) (lib : Jwt) (forger : Manager)
    (now now' later : ℕ) (user_id token : String)
    → load rpc v ≡ ok cfg
    → setting_of "JWT_SECRET" defaults ≡ some (text_setting cfg.jwt.secret)
    → setting_of "JWT_SECRET" defaults ≡ some (text_setting forger.secret_key)
    → generate lib rpc forger now now' user_id ≡ ok token
    → lib.numeric_date now' ≤ later
    → later < lib.numeric_date (add_duration now forger.token_ttl)
    → HasNoSpace token
    → token ≢ ""
    → (provide_config rpc v ≡ provided cfg)
      × ((m : Manager) × (provide_manager cfg ≡ provided m)
          × (jwt_auth lib rpc m later (S.◌++◌ "Bearer " token) ≡ passed user_id))
provide_config-jwt_auth rpc v cfg lib forger now now' later user_id token loaded default known
      signed issued fresh plain filled =
    let given = provide_config_default rpc v cfg loaded default in
    let (_, _, made) = provide_config-provide_manager rpc v cfg given in
    let m : Manager = record { secret_key = cfg.jwt.secret; token_ttl = cfg.jwt.token_ttl } in
    let same : m.secret_key ≡ forger.secret_key = cc (sym default ∙ known) in
    (
      given,
      (
        m,
        made,
        bearer-jwt_auth lib rpc m later user_id token
            (verify-generate lib rpc forger m now now' later user_id token signed same issued fresh)
            plain filled,
      ),
    )
