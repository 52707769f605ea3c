-- ===== src/Config/Printing.antt =====
-- String and maskDSN of internal/config/config.go. net/url and fmt.Sprintf are parameters.
pub mod Masking
use holdex_backend_cqrs.Prelude.{ℕ, String, Bool, not, Option, none, some, List, str_eq, ℤ}
use holdex_backend_cqrs.Config.{Config}

-- `url.Userinfo`, and a URL with the rest of its parts in one.
pub record User : Type 0 where
  pub username : String
  pub password : Option String

pub record Url : Type 0 where
  pub user : Option User
  pub rest : String

pub record UrlLibrary : Type 0 where
  pub parse : String → Option Url
  pub print : Url → String

abbrev pub mask_password : String → Option String → Option String
mask_password username none = none
mask_password username (some password) = some "xxxx"

abbrev pub mask_user : Option User → Option User
mask_user none = none
mask_user (some u) = some (record u { password = mask_password u.username u.password })

abbrev pub print_masked : UrlLibrary → Option Url → String
print_masked lib none = "postgres://[parse-failed]"
print_masked lib (some u) = lib.print (record u { user = mask_user u.user })

unfoldable pub mask_dsn : UrlLibrary → String → String
mask_dsn lib dsn = print_masked lib (lib.parse dsn)

-- The arguments of Sprintf.
pub record Printed : Type 0 where
  pub port : String
  pub grpc_port : String
  pub log_level : String
  pub dsn : String
  pub dsn_read : String
  pub skip_migrations : Bool
  pub db_max_conns : ℤ
  pub db_min_conns : ℤ
  pub db_max_conn_idle_time : ℤ
  pub coin_gecko_poll_interval : ℤ
  pub coin_gecko_coins : List String
  pub has_coin_gecko_api_key : Bool
  pub rate_limit_rps : ℕ
  pub rate_limit_burst : ℤ

unfoldable pub config_string : UrlLibrary → (Printed → String) → Config → String
unfolding mask_dsn
config_string lib sprintf c = sprintf (record {
  port = c.port;
  grpc_port = c.grpc_port;
  log_level = c.log_level;
  dsn = mask_dsn lib c.db_dsn;
  dsn_read = mask_dsn lib c.db_dsn_read;
  skip_migrations = c.skip_migrations;
  db_max_conns = c.db_max_conns;
  db_min_conns = c.db_min_conns;
  db_max_conn_idle_time = c.db_max_conn_idle_time;
  coin_gecko_poll_interval = c.coin_gecko_poll_interval;
  coin_gecko_coins = c.coin_gecko_coins;
  has_coin_gecko_api_key = not (str_eq c.coin_gecko_api_key "");
  rate_limit_rps = c.rate_limit_rps;
  rate_limit_burst = c.rate_limit_burst;
})
