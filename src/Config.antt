-- ===== src/Config.antt =====
-- The configuration: backend/internal/config/config.go. The environment and the parsers of strconv
-- and time are the fields of Environment.
use cert_rollover_impact_ass.Prelude.{
  ℕ, ◌+◌, ◌*◌, ◌≡◌, Bool, true, false, not, ◌||◌, ◌&&◌, Option, none, some, String, str_eq, ltb,
  ◌==◌, if◌then◌else◌,
}
use cert_rollover_impact_ass.Simulator.Snapshot.{Instant}
use cert_rollover_impact_ass.Access.{Number, from_zero, below_zero}
pub mod Loaded

pub record Environment : Type 0 where
  -- os.LookupEnv
  pub lookup : String → Option String
  -- strconv.Atoi and time.ParseDuration, `none` for an error
  pub atoi : String → Option Number
  pub parse_duration : String → Option Number
  pub byte_length : String → ℕ

pub record Config : Type 0 where
  pub port : String
  pub db_driver : String
  pub db_dsn : String
  pub jwt_secret : String
  pub jwt_issuer : String
  pub jwt_expiry : ℕ
  pub login_limit_per_minute : ℕ
  pub certificate_limit_per_minute : ℕ
  pub simulation_limit_per_minute : ℕ
  pub shutdown_timeout : ℕ

-- the errors of Load
pub data ConfigError : Type 0 where
  no_port unsupported_driver no_dsn short_secret : ConfigError

pub data Load : Type 0 where
  loaded : Config → Load
  rejected : ConfigError → Load

-- a number above 0, or the fallback
abbrev pub positive_or : ℕ → Option Number → ℕ
positive_or fallback none = fallback
positive_or fallback (some (from_zero n)) = if n == 0 then fallback else n
positive_or fallback (some (below_zero n)) = fallback

abbrev pub seconds : ℕ → ℕ
seconds n = n * 1_000_000_000

-- the tests of Load
unfoldable pub check_config : (String → ℕ) → Config → Load
check_config byte_length cfg =
    if str_eq cfg.port ""
    then rejected no_port
    else if not (str_eq cfg.db_driver "postgres") && not (str_eq cfg.db_driver "sqlite")
    then rejected unsupported_driver
    else if str_eq cfg.db_dsn ""
    then rejected no_dsn
    else if ltb (byte_length cfg.jwt_secret) 16
    then rejected short_secret
    else loaded cfg

module _ (os : Environment) where
  -- env
  abbrev pub env : String → String → String
  env key fallback = elim (os.lookup key) [ none ↦ fallback | some value ↦ value ]

  -- intEnv
  abbrev pub int_env : String → ℕ → ℕ
  int_env key fallback = elim (os.lookup key) [
    | none ↦ fallback
    | some value ↦ positive_or fallback (os.atoi value)
  ]

  -- durationEnv
  abbrev pub duration_env : String → ℕ → ℕ
  duration_env key fallback = elim (os.lookup key) [
    | none ↦ fallback
    | some value ↦ positive_or fallback (os.parse_duration value)
  ]

  abbrev pub config_from : Config
  config_from = record {
    port = env "PORT" "8080";
    db_driver = env "DB_DRIVER" "postgres";
    db_dsn =
        env "DB_DSN"
          "host=localhost user=pki password=pki dbname=pki_rollover port=5432 sslmode=disable";
    jwt_secret = env "JWT_SECRET" "development-only-change-me";
    jwt_issuer = "pki-certificate-rollover-impact";
    jwt_expiry = duration_env "JWT_EXPIRY" (seconds (8 * 3600));
    login_limit_per_minute = int_env "LOGIN_LIMIT_PER_MINUTE" 30;
    certificate_limit_per_minute = int_env "CERT_IMPORT_LIMIT_PER_MINUTE" 30;
    simulation_limit_per_minute = int_env "SIMULATION_LIMIT_PER_MINUTE" 60;
    shutdown_timeout = duration_env "SHUTDOWN_TIMEOUT" (seconds 10);
  }

  -- Load
  unfoldable pub load_config : Load
  unfolding check_config
  load_config = check_config os.byte_length config_from
