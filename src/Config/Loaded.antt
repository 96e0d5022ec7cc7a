-- ===== src/Config/Loaded.antt =====
-- What a configuration that loads is like.
use cert_rollover_impact_ass.Prelude.{
  ℕ, ◌≡◌, ◌≢◌, ◌⊎◌, ◌≤◌, ◌<◌, ◌*◌, true, false, Option, none, some, String, str_eq, eq_iff, arith,
  ◌↔◌, Bool-cases, inl, inr, ⊎_elim, subst, sym,
}
use cert_rollover_impact_ass.Access.{Number, from_zero, below_zero}
use cert_rollover_impact_ass.Config.{
  Environment, Config, loaded, positive_or, seconds, check_config, int_env, duration_env,
  config_from, load_config,
}

positive_or_positive :
    (fallback : ℕ) (o : Option Number) → 0 < fallback → 0 < positive_or fallback o
positive_or_positive fallback none h = h
positive_or_positive fallback (some (from_zero n)) h = ground arith
positive_or_positive fallback (some (below_zero n)) h = h

module _ (os : Environment) where
  int_env_positive : (key : String) (fallback : ℕ) → 0 < fallback → 0 < int_env os key fallback
  int_env_positive key fallback h = go (os.lookup key)
    where
      go :
          (o : Option String)
          → let n : ℕ = elim o [
            | none ↦ fallback
            | some value ↦ positive_or fallback (os.atoi value)
          ] in
            0 < n
      go none = h
      go (some value) = positive_or_positive fallback (os.atoi value) h

  duration_env_positive :
      (key : String) (fallback : ℕ) → 0 < fallback → 0 < duration_env os key fallback
  duration_env_positive key fallback h = go (os.lookup key)
    where
      go :
          (o : Option String)
          → let n : ℕ = elim o [
            | none ↦ fallback
            | some value ↦ positive_or fallback (os.parse_duration value)
          ] in
            0 < n
      go none = h
      go (some value) = positive_or_positive fallback (os.parse_duration value) h

  -- A configuration under which the server can run: each limit and each duration is positive, so that
  -- no limiter refuses everything and no session has ended when it begins.
  pub record IsUsable (cfg : Config) : Type 0 where
    pub port_given : cfg.port ≢ ""
    pub driver_known : (cfg.db_driver ≡ "postgres") ⊎ (cfg.db_driver ≡ "sqlite")
    pub dsn_given : cfg.db_dsn ≢ ""
    pub secret_long : 16 ≤ os.byte_length cfg.jwt_secret
    pub expiry_positive : 0 < cfg.jwt_expiry
    pub login_positive : 0 < cfg.login_limit_per_minute
    pub certificate_positive : 0 < cfg.certificate_limit_per_minute
    pub simulation_positive : 0 < cfg.simulation_limit_per_minute
    pub timeout_positive : 0 < cfg.shutdown_timeout

  -- the tests of Load, passed
  abbrev Passes : Config → Type 0
  Passes cfg =
      (str_eq cfg.port "" ≡ false)
      × ((str_eq cfg.db_driver "postgres" ≡ true) ⊎ (str_eq cfg.db_driver "sqlite" ≡ true))
      × (str_eq cfg.db_dsn "" ≡ false)
      × (16 ≤ os.byte_length cfg.jwt_secret)

  check_lem :
      (cfg cfg' : Config)
      → check_config os.byte_length cfg ≡ loaded cfg'
      → (cfg ≡ cfg') × Passes cfg
  unfolding check_config
  check_lem cfg cfg' h = ground arith

  check_back : (cfg : Config) → Passes cfg → check_config os.byte_length cfg ≡ loaded cfg
  unfolding check_config
  check_back cfg (port, driver, dsn, secret) = ground arith

  differs : (s t : String) → (str_eq s t ≡ false) ↔ (s ≢ t)
  differs s t = (
    λ h e. let same = (eq_iff s t).1 e in cc,
    λ n. elim (Bool-cases (str_eq s t)) [ inl e ↦ absurd (n ((eq_iff s t).0 e)) | inr e ↦ e ],
  )

  config_from-IsUsable : (cfg : Config) → config_from os ≡ cfg → Passes cfg → IsUsable cfg
  config_from-IsUsable cfg same (port, driver, dsn, secret) = record {
    port_given = (differs cfg.port "").0 port;
    driver_known =
        ⊎_elim (λ e. inl ((eq_iff cfg.db_driver "postgres").0 e))
          (λ e. inr ((eq_iff cfg.db_driver "sqlite").0 e)) driver;
    dsn_given = (differs cfg.db_dsn "").0 dsn;
    secret_long = secret;
    expiry_positive =
        subst (λ (c : Config). 0 < c.jwt_expiry) same
          (duration_env_positive "JWT_EXPIRY" (seconds (8 * 3600)) (omega arith));
    login_positive =
        subst (λ (c : Config). 0 < c.login_limit_per_minute) same
          (int_env_positive "LOGIN_LIMIT_PER_MINUTE" 30 (omega arith));
    certificate_positive =
        subst (λ (c : Config). 0 < c.certificate_limit_per_minute) same
          (int_env_positive "CERT_IMPORT_LIMIT_PER_MINUTE" 30 (omega arith));
    simulation_positive =
        subst (λ (c : Config). 0 < c.simulation_limit_per_minute) same
          (int_env_positive "SIMULATION_LIMIT_PER_MINUTE" 60 (omega arith));
    timeout_positive =
        subst (λ (c : Config). 0 < c.shutdown_timeout) same
          (duration_env_positive "SHUTDOWN_TIMEOUT" (seconds 10) (omega arith));
  }

  -- Load returns a configuration exactly if the one that the environment gives is usable: a port, a
  -- database and a known driver, a secret of at least 16 bytes, and positive limits and durations,
  -- whatever the environment holds for them; and then it returns that one.
  pub load_config_iff :
      (cfg : Config) → (load_config os ≡ loaded cfg) ↔ ((config_from os ≡ cfg) × IsUsable cfg)
  unfolding load_config
  load_config_iff cfg = (
    λ h.
        let (same, passed) = check_lem (config_from os) cfg h in
        (same, config_from-IsUsable cfg same (subst Passes same passed)),
    λ (same, u).
        subst (λ c. check_config os.byte_length c ≡ loaded cfg) (sym same)
          (check_back cfg (
            (differs cfg.port "").1 u.port_given,
            ⊎_elim (λ e. inl ((eq_iff cfg.db_driver "postgres").1 e))
                (λ e. inr ((eq_iff cfg.db_driver "sqlite").1 e)) u.driver_known,
            (differs cfg.db_dsn "").1 u.dsn_given,
            u.secret_long,
          )),
  )
