-- ===== src/Auth/Config.antt =====
-- internal/platform/config/jwt.go. A time.Duration is a number of nanoseconds; os.Getenv and
-- time.ParseDuration are parameters.
use eastbay_overland_rally_p.Prelude.{
  ℤ, pos, String, ◌||◌, Option, none, some, ◌==◌, string_eq, if◌then◌else◌,
}

pub record JwtConfig : Type 0 where
  pub issuer : String
  pub audience : String
  pub jwks_url : String
  pub clock_skew : ℤ
  pub jwks_refresh_interval : ℤ
  pub jwks_min_refresh_interval : ℤ
  pub http_timeout : ℤ

abbrev pub defaults : String → String → String → JwtConfig
defaults issuer audience jwks_url = record {
  issuer = issuer;
  audience = audience;
  jwks_url = jwks_url;
  clock_skew = pos 30000000000;
  jwks_refresh_interval = pos 300000000000;
  jwks_min_refresh_interval = pos 10000000000;
  http_timeout = pos 5000000000;
}

-- a variable that is empty leaves the default; none when it cannot be parsed
abbrev pub duration_or : (String → Option ℤ) → ℤ → String → Option ℤ
duration_or parse_duration default v = if v == "" then some default else parse_duration v

infixl 5 ◌>>=◌
abbrev ◌>>=◌ : {A B : Type 0} → Option A → (A → Option B) → Option B
none >>= f = none
some a >>= f = f a

-- LoadJWTConfigFromEnv, none for an error
module _ (getenv : String → String) (parse_duration : String → Option ℤ) where
  abbrev with_durations : JwtConfig → Option JwtConfig
  with_durations cfg = do
    skew ← duration_or parse_duration cfg.clock_skew (getenv "JWT_CLOCK_SKEW")
    refresh ←
        duration_or parse_duration cfg.jwks_refresh_interval (getenv "JWT_JWKS_REFRESH_INTERVAL")
    min_refresh ←
        duration_or parse_duration cfg.jwks_min_refresh_interval
          (getenv "JWT_JWKS_MIN_REFRESH_INTERVAL")
    some (record cfg {
      clock_skew = skew;
      jwks_refresh_interval = refresh;
      jwks_min_refresh_interval = min_refresh;
    })

  unfoldable pub load_jwt_config_from_env : Option JwtConfig
  load_jwt_config_from_env =
      let issuer = getenv "JWT_ISSUER" in
      let audience = getenv "JWT_AUDIENCE" in
      let jwks_url = getenv "JWT_JWKS_URL" in
      if issuer == "" || audience == "" || jwks_url == ""
      then none
      else with_durations (defaults issuer audience jwks_url)
