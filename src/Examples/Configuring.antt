-- ===== src/Examples/Configuring.antt =====
-- The theorems on the settings at concrete environments.
use Prim.Native.String.{◌++◌ as concat}
use holdex_backend_cqrs.Prelude.{
  ◌*◌, String, ◌≡◌, refl, true, Option, some, none, [], ◌∷◌, str_eq, pos, if◌then◌else◌,
}
use holdex_backend_cqrs.Config.{Parsers, Config, Environment, second, fifty, get_env, load}
use holdex_backend_cqrs.Config.Printing.{User, UrlLibrary, Printed, mask_dsn, config_string}
use holdex_backend_cqrs.Config.Printing.Masking.{same_rest, same_name, config_string_masked}
use holdex_backend_cqrs.Config.Reading.{
  Texts, Reads, ReadsDefaults, defaults, all_numbers, environment_of, load-environment_of,
}

-- Parsers that refuse every number, so that each is its default.
abbrev pub refusing : Parsers
refusing = record {
  atoi = λ s. none;
  parse_float = λ s. none;
  parse_duration = λ s. none;
  split_commas = λ s. s ∷ [];
  trim_space = λ s. s;
}

abbrev on_port : Environment
on_port = ("HOME", "/root") ∷ ("PORT", "9000") ∷ ("DB_DSN", "") ∷ []

abbrev on_same_port : Environment
on_same_port = ("DB_DSN", "") ∷ ("PORT", "9000") ∷ ("PORT", "9001") ∷ []

port_set : (load refusing on_port).port ≡ "9000"
unfolding load get_env
port_set = refl

-- Parsers that read the defaults, seven seconds and the number three, and nothing else.
abbrev reading : Parsers
reading = record {
  atoi = λ s. if str_eq s "10" then some (pos 10) else if str_eq s "2" then some (pos 2) else none;
  parse_float = λ s. if str_eq s "50.0" then some fifty else none;
  parse_duration = λ s.
      if str_eq s "5m"
      then some (pos (300 * second))
      else if str_eq s "60s"
      then some (pos (60 * second))
      else none;
  split_commas = λ s. s ∷ [];
  trim_space = λ s. s;
}

abbrev texts : Texts
texts = record {
  max_conns = "10";
  min_conns = "2";
  idle_time = "60s";
  interval = "5m";
  rps = "50.0";
  burst = "2";
  coins = "bitcoin";
}

abbrev settings : Config
settings = record (defaults reading) {
  db_dsn_read = "postgres://replica/holdex";
  port = "8000";
  grpc_port = "9000";
  coin_gecko_poll_interval = pos (300 * second);
  db_max_conn_idle_time = pos (60 * second);
  skip_migrations = true;
  rate_limit_burst = pos 2;
  coin_gecko_coins = "bitcoin" ∷ [];
}

texts-Reads : Reads reading texts settings
texts-Reads = record {
  max_conns_read = refl;
  min_conns_read = refl;
  idle_time_read = refl;
  interval_read = refl;
  rps_read = refl;
  burst_read = refl;
  coins_read = refl;
}

reading-ReadsDefaults : ReadsDefaults reading "many"
reading-ReadsDefaults = record {
  ten = refl;
  two = refl;
  half_hundred = refl;
  five_minutes = refl;
  one_minute = refl;
  no_int = refl;
  no_float = refl;
  no_duration = refl;
}

load-environment_of_example :
    (load reading (environment_of texts settings on_port) ≡ settings)
    × (load reading [] ≡ defaults reading)
    × (load reading (all_numbers "many") ≡ defaults reading)
load-environment_of_example =
    load-environment_of reading texts "many" settings on_port texts-Reads reading-ReadsDefaults

abbrev print_password : Option String → String
print_password none = "@"
print_password (some password) = concat ":" (concat password "@")

abbrev print_user : Option User → String
print_user none = ""
print_user (some u) = concat u.username (print_password u.password)

-- Two DSNs that differ in their passwords.
abbrev two_dsns : UrlLibrary
two_dsns = record {
  parse = λ dsn.
      if str_eq dsn "postgres://holdex:two@db/holdex"
      then some (record {
        user = some (record { username = "holdex"; password = some "two" });
        rest = "db/holdex";
      })
      else some (record {
        user = some (record { username = "holdex"; password = some "one" });
        rest = "db/holdex";
      });
  print = λ u. concat (print_user u.user) u.rest;
}

abbrev show_dsns : Printed → String
show_dsns p = concat p.dsn (concat " " p.dsn_read)

-- Both DSNs are printed, without their passwords.
dsns_printed :
    config_string two_dsns show_dsns (load refusing on_port)
    ≡ "holdex:xxxx@db/holdex holdex:xxxx@db/holdex"
unfolding config_string mask_dsn load get_env
dsns_printed = refl

config_string_masked_example :
    config_string two_dsns show_dsns (record (load refusing on_port) {
      db_dsn = "postgres://holdex:two@db/holdex";
      db_dsn_read = "postgres://holdex:two@db/holdex";
      redis_addr = "localhost:6380";
      redis_password = "three";
      api_key = "four";
      coin_gecko_api_key = "";
    })
    ≡ config_string two_dsns show_dsns (load refusing on_port)
unfolding load get_env
config_string_masked_example =
    config_string_masked two_dsns show_dsns (load refusing on_port)
      "postgres://holdex:two@db/holdex" "postgres://holdex:two@db/holdex" "localhost:6380" "three"
      "four" "" (same_rest "db/holdex" (same_name "holdex" "two" "one"))
      (same_rest "db/holdex" (same_name "holdex" "two" "one")) refl
