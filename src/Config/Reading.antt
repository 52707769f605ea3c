-- ===== src/Config/Reading.antt =====
-- The settings of config.go, read back from an environment that was written for them.
use holdex_backend_cqrs.Prelude.{
  String, ◌≡◌, refl, Bool, true, false, some, [], ◌∷◌, map, pos, none, str_eq, ◌*◌,
}
use holdex_backend_cqrs.Config.{Parsers, Environment, Config, second, fifty, default_dsn, load}

-- The texts of the settings that are not texts themselves.
pub record Texts : Type 0 where
  pub max_conns : String
  pub min_conns : String
  pub idle_time : String
  pub interval : String
  pub rps : String
  pub burst : String
  pub coins : String

-- The parsers of the standard library read these texts as the settings.
pub record Reads (lib : Parsers) (texts : Texts) (c : Config) : Type 0 where
  pub max_conns_read : lib.atoi texts.max_conns ≡ some c.db_max_conns
  pub min_conns_read : lib.atoi texts.min_conns ≡ some c.db_min_conns
  pub idle_time_read : lib.parse_duration texts.idle_time ≡ some c.db_max_conn_idle_time
  pub interval_read : lib.parse_duration texts.interval ≡ some c.coin_gecko_poll_interval
  pub rps_read : lib.parse_float texts.rps ≡ some c.rate_limit_rps
  pub burst_read : lib.atoi texts.burst ≡ some c.rate_limit_burst
  pub coins_read : map lib.trim_space (lib.split_commas texts.coins) ≡ c.coin_gecko_coins

-- The parsers read the defaults as they are meant, and refuse this text.
pub record ReadsDefaults (lib : Parsers) (bad : String) : Type 0 where
  pub ten : lib.atoi "10" ≡ some (pos 10)
  pub two : lib.atoi "2" ≡ some (pos 2)
  pub half_hundred : lib.parse_float "50.0" ≡ some fifty
  pub five_minutes : lib.parse_duration "5m" ≡ some (pos (300 * second))
  pub one_minute : lib.parse_duration "60s" ≡ some (pos (60 * second))
  pub no_int : lib.atoi bad ≡ none
  pub no_float : lib.parse_float bad ≡ none
  pub no_duration : lib.parse_duration bad ≡ none

-- The settings where nothing is set.
abbrev pub defaults : Parsers → Config
defaults lib = record {
  db_dsn = default_dsn;
  db_dsn_read = default_dsn;
  redis_addr = "localhost:6379";
  port = "8080";
  grpc_port = "9090";
  coin_gecko_poll_interval = pos (60 * second);
  log_level = "info";
  skip_migrations = false;
  db_max_conns = pos 10;
  db_min_conns = pos 2;
  db_max_conn_idle_time = pos (300 * second);
  rate_limit_rps = fifty;
  rate_limit_burst = pos 10;
  trust_proxy = false;
  api_key = "";
  redis_password = "";
  coin_gecko_api_key = "";
  coin_gecko_coins = map lib.trim_space (lib.split_commas "bitcoin,ethereum,cardano,solana,ripple");
}

-- Every variable that is parsed as a number or a duration is set to this text.
abbrev pub all_numbers : String → Environment
all_numbers text =
    ("COINGECKO_POLL_INTERVAL", text)
    ∷ ("DB_MAX_CONNS", text)
    ∷ ("DB_MIN_CONNS", text)
    ∷ ("DB_MAX_CONN_IDLE_TIME", text)
    ∷ ("RATE_LIMIT_RPS", text)
    ∷ ("RATE_LIMIT_BURST", text)
    ∷ []

abbrev pub flag : Bool → String
flag true = "true"
flag false = "false"

flag-eq_true : (b : Bool) → str_eq (flag b) "true" ≡ b
flag-eq_true true = refl
flag-eq_true false = refl

-- The variables of these settings, in any environment.
abbrev pub environment_of : Texts → Config → Environment → Environment
environment_of texts c rest =
    ("DB_DSN", c.db_dsn)
    ∷ ("DB_DSN_READ", c.db_dsn_read)
    ∷ ("REDIS_ADDR", c.redis_addr)
    ∷ ("PORT", c.port)
    ∷ ("GRPC_PORT", c.grpc_port)
    ∷ ("COINGECKO_POLL_INTERVAL", texts.interval)
    ∷ ("LOG_LEVEL", c.log_level)
    ∷ ("SKIP_MIGRATIONS", flag c.skip_migrations)
    ∷ ("DB_MAX_CONNS", texts.max_conns)
    ∷ ("DB_MIN_CONNS", texts.min_conns)
    ∷ ("DB_MAX_CONN_IDLE_TIME", texts.idle_time)
    ∷ ("RATE_LIMIT_RPS", texts.rps)
    ∷ ("RATE_LIMIT_BURST", texts.burst)
    ∷ ("TRUST_PROXY", flag c.trust_proxy)
    ∷ ("API_KEY", c.api_key)
    ∷ ("REDIS_PASSWORD", c.redis_password)
    ∷ ("COINGECKO_API_KEY", c.coin_gecko_api_key)
    ∷ ("COINGECKO_COINS", texts.coins)
    ∷ rest

-- Settings that are written to their eighteen variables, as texts that the parsers read as these
-- settings, are read back unchanged by Load, whatever else the environment holds; and where nothing is
-- set, or only numbers and durations that do not parse, Load gives the defaults.
pub load-environment_of :
    (lib : Parsers) (texts : Texts) (bad : String) (c : Config) (rest : Environment)
    → Reads lib texts c
    → ReadsDefaults lib bad
    → (load lib (environment_of texts c rest) ≡ c)
      × (load lib [] ≡ defaults lib)
      × (load lib (all_numbers bad) ≡ defaults lib)
unfolding load
load-environment_of lib texts bad c rest r d = (
  rw
      (
        r.max_conns_read,
        r.min_conns_read,
        r.idle_time_read,
        r.interval_read,
        r.rps_read,
        r.burst_read,
        r.coins_read,
        flag-eq_true c.skip_migrations,
        flag-eq_true c.trust_proxy,
      )
      refl,
  rw (d.ten, d.two, d.half_hundred, d.five_minutes, d.one_minute) refl,
  rw (d.no_int, d.no_float, d.no_duration) refl,
)
