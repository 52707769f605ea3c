-- ===== src/Server.antt =====
-- cmd/server/main.go: how the server opens its connections, and the daemon that prunes the price
-- history. Whether a call of pgx, of go-redis or of the migrations fails is the environment's choice.
pub mod Lifecycle
pub mod Opening
pub mod Pruning
use holdex_backend_cqrs.Prelude.{
  ℕ, ◌-◌, ◌*◌, ◌^◌, ◌%◌, String, Bool, true, false, Option, none, some, List, [], ◌∷◌, ltb,
  if◌then◌else◌, ℤ, pos, negsuc,
}
use holdex_backend_cqrs.World.{World}
use holdex_backend_cqrs.Config.{Config}
use holdex_backend_cqrs.Projection.ReadModel.{prune_price_history}

-- The conversion of an int to an int32 keeps the low 32 bits.
abbrev pub signed_32 : ℕ → ℤ
signed_32 m = if ltb m (2 ^ 31) then pos m else negsuc (2 ^ 32 - 1 - m)

unfoldable pub to_int32 : ℤ → ℤ
to_int32 (pos n) = signed_32 (n % 2 ^ 32)
to_int32 (negsuc n) = signed_32 (2 ^ 32 - 1 - n % 2 ^ 32)

pub record PoolConfig : Type 0 where
  pub dsn : String
  pub max_conns : ℤ
  pub min_conns : ℤ
  pub max_conn_idle_time : ℤ

abbrev pub pool_config : Config → String → PoolConfig
pool_config cfg dsn = record {
  dsn = dsn;
  max_conns = to_int32 cfg.db_max_conns;
  min_conns = to_int32 cfg.db_min_conns;
  max_conn_idle_time = cfg.db_max_conn_idle_time;
}

pub data StartError : Type 0 where
  migration_run_failed write_config_failed write_pool_failed write_ping_failed : StartError
  read_config_failed read_pool_failed read_ping_failed redis_ping_failed : StartError

-- The connections that are open, with their settings, and which of the calls to come fail: none past
-- the end of the list.
pub record Startup : Type 0 where
  pub write_pool : Option PoolConfig
  pub read_pool : Option PoolConfig
  pub rdb : Option (String × String)
  pub failures : List Bool

pub data Outcome : Type 0 where
  started : Outcome
  not_started : StartError → Outcome

abbrev pub Init : Type 0
Init = Startup → Outcome × Startup

-- A call, with what is done before its error is returned, and what follows it.
abbrev pub call_failing : List Bool → StartError → (Startup → Startup) → Init → Init
call_failing [] e clean_up next s = next s
call_failing (false ∷ fs) e clean_up next s = next (record s { failures = fs })
call_failing (true ∷ fs) e clean_up next s = (not_started e, clean_up (record s { failures = fs }))

abbrev pub call : StartError → (Startup → Startup) → Init → Init
call e clean_up next s = call_failing s.failures e clean_up next s

abbrev pub close_nothing : Startup → Startup
close_nothing s = s

abbrev pub close_write : Startup → Startup
close_write s = record s { write_pool = none }

abbrev pub close_pools : Startup → Startup
close_pools s = record (close_write s) { read_pool = none }

abbrev pub close_all : Startup → Startup
close_all s = record (close_pools s) { rdb = none }

-- A connection that is held from here on.
abbrev pub holding : (Startup → Startup) → Init → Init
holding acquire next s = next (acquire s)

module _ (cfg : Config) where
  abbrev pub migrate : Bool → Init → Init
  migrate false next = call migration_run_failed close_nothing next
  migrate true next = next

  abbrev pub open_write : Startup → Startup
  open_write s = record s { write_pool = some (pool_config cfg cfg.db_dsn) }

  abbrev pub open_read : Startup → Startup
  open_read s = record s { read_pool = some (pool_config cfg cfg.db_dsn_read) }

  abbrev pub open_redis : Startup → Startup
  open_redis s = record s { rdb = some (cfg.redis_addr, cfg.redis_password) }

  abbrev pub connect_redis : Init
  connect_redis = holding open_redis (call redis_ping_failed close_all (λ s. (started, s)))

  abbrev pub connect_reader : Init
  connect_reader = call read_config_failed close_write (
      call read_pool_failed close_write
        (holding open_read (call read_ping_failed close_pools connect_redis)))

  abbrev pub connect_writer : Init
  connect_writer = call write_config_failed close_nothing (
      call write_pool_failed close_nothing
        (holding open_write (call write_ping_failed close_write connect_reader)))

  unfoldable pub init_databases : Init
  init_databases = migrate cfg.skip_migrations connect_writer

-- PrunePriceHistory at one time, with its error logged.
abbrev pub prune_at : ℕ → World → World
prune_at now w = (prune_price_history now (7 * 24 * 3600 * 10 ^ 9) w).1

-- The pruner: once at the start, and at each tick.
unfoldable pub run_pruner : ℕ → List ℕ → World → World
run_pruner now [] w = prune_at now w
run_pruner now (tick ∷ ticks) w = run_pruner tick ticks (prune_at now w)
