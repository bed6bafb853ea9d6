-- ===== src/Config/Github.antt =====
-- internal/config/github.go and server.go: the settings of the API client and of the server.
use software_engineering_sch.Prelude.{String, ◌≡◌, refl, false, Option, some, str_eq, if◌then◌else◌}
use software_engineering_sch.Prelude.Int.{ℤ, pos}
use software_engineering_sch.Config.{
  Env, Strconv, get_env, must_get_env, get_env_as, get_env_int, after,
}
use software_engineering_sch.Config.Load.{
  BaseConfig, ScannerConfig, RedisConfig, RabbitMqConfig, OutboxConfig, SagaReaperConfig,
  duration_of_seconds, load_base_config, load_db_dsn, load_scanner_config, load_redis_config,
  load_rabbit_mq_config, load_outbox_config, load_saga_reaper_config,
}

pub record GithubConfig : Type 0 where
  pub token : String
  pub timeout : ℤ
  pub cache_ttl : ℤ
  pub cache_error_ttl : ℤ

-- In production the token is required.
unfoldable pub github_token : Env → Option String
unfolding get_env must_get_env
github_token env =
    if str_eq (get_env env "APP_ENV" "development") "production"
    then must_get_env env "GITHUB_TOKEN"
    else some (get_env env "GITHUB_TOKEN" "")

unfoldable pub github_config : Env → String → GithubConfig
unfolding get_env_as
github_config env token = record {
  token = token;
  timeout = duration_of_seconds (get_env_int env "GITHUB_TIMEOUT_SECONDS" (pos 15));
  cache_ttl = duration_of_seconds (get_env_int env "GITHUB_CACHE_TTL_SECONDS" (pos 600));
  cache_error_ttl = duration_of_seconds (get_env_int env "GITHUB_CACHE_ERROR_TTL_SECODS" (pos 60));
}

unfoldable pub load_github_config : Env → Option GithubConfig
unfolding github_token github_config after
load_github_config env = after (github_token env) λ token. some (github_config env token)

pub record ServerConfig (F : Type 0) : Type 0 where
  pub base : BaseConfig
  pub db_dsn : String
  pub github : GithubConfig
  pub scanner : ScannerConfig F
  pub redis : RedisConfig
  pub rabbit_mq : RabbitMqConfig
  pub outbox : OutboxConfig
  pub saga : SagaReaperConfig

unfoldable pub load_server_config : {F : Type 0} → Strconv F → F → Env → Option (ServerConfig F)
unfolding load_base_config load_db_dsn load_github_config load_scanner_config load_redis_config
    load_rabbit_mq_config load_outbox_config load_saga_reaper_config after
load_server_config conv a_tenth env = after (load_db_dsn env) λ db_dsn.
    after (load_github_config env) λ github. some (record {
      base = load_base_config env;
      db_dsn = db_dsn;
      github = github;
      scanner = load_scanner_config conv a_tenth env;
      redis = load_redis_config env;
      rabbit_mq = load_rabbit_mq_config env;
      outbox = load_outbox_config env;
      saga = load_saga_reaper_config env;
    })

-- The documented name of the variable for the time that errors are cached.
abbrev pub documented_key : String
documented_key = "GITHUB_CACHE_ERROR_TTL_SECONDS"

get_env_same :
    (env other_env : Env) (key fallback : String)
    → env key ≡ other_env key
    → get_env env key fallback ≡ get_env other_env key fallback
unfolding get_env
get_env_same env other_env key fallback h = rw (get_env, h) refl

must_get_env_same :
    (env other_env : Env) (key : String)
    → env key ≡ other_env key
    → must_get_env env key ≡ must_get_env other_env key
unfolding must_get_env
must_get_env_same env other_env key h = h

get_env_int_same :
    (env other_env : Env) (key : String) (fallback : ℤ)
    → env key ≡ other_env key
    → get_env_int env key fallback ≡ get_env_int other_env key fallback
unfolding get_env_as
get_env_int_same env other_env key fallback h = rw (get_env_as, h) refl

-- Two environments that differ at most in GITHUB_CACHE_ERROR_TTL_SECONDS, the documented variable of
-- the cache's error TTL, give the same settings of the GitHub client.
pub load_github_config_ignores :
    (env other_env : Env)
    → ((key : String) → str_eq key documented_key ≡ false → env key ≡ other_env key)
    → load_github_config env ≡ load_github_config other_env
unfolding load_github_config github_token github_config
load_github_config_ignores env other_env same =
    rw
      (
        get_env_same env other_env "APP_ENV" "development" (same "APP_ENV" refl),
        get_env_same env other_env "GITHUB_TOKEN" "" (same "GITHUB_TOKEN" refl),
        must_get_env_same env other_env "GITHUB_TOKEN" (same "GITHUB_TOKEN" refl),
        get_env_int_same env other_env "GITHUB_TIMEOUT_SECONDS" (pos 15)
            (same "GITHUB_TIMEOUT_SECONDS" refl),
        get_env_int_same env other_env "GITHUB_CACHE_TTL_SECONDS" (pos 600)
            (same "GITHUB_CACHE_TTL_SECONDS" refl),
        get_env_int_same env other_env "GITHUB_CACHE_ERROR_TTL_SECODS" (pos 60)
            (same "GITHUB_CACHE_ERROR_TTL_SECODS" refl),
      )
      refl
