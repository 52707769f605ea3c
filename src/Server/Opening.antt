-- ===== src/Server/Opening.antt =====
-- What initDatabases leaves open.
use holdex_backend_cqrs.Prelude.{◌≡◌, refl, Bool, true, false, none, some, List, [], ◌∷◌}
use holdex_backend_cqrs.Config.{Config}
use holdex_backend_cqrs.Server.{
  Startup, Outcome, started, not_started, StartError, migration_run_failed, write_config_failed,
  write_pool_failed, write_ping_failed, read_config_failed, read_pool_failed, read_ping_failed,
  redis_ping_failed, Init, call_failing, call, pool_config, migrate, open_write, open_read,
  open_redis, connect_reader, connect_writer, close_nothing, close_write, close_pools, close_all,
  init_databases,
}

abbrev pub nothing_open : List Bool → Startup
nothing_open fs = record { write_pool = none; read_pool = none; rdb = none; failures = fs }

module _ (cfg : Config) where
  -- Nothing is open after an error, and all of it after a start.
  abbrev pub IsOpened : Outcome × Startup → Type 0
  IsOpened (started, s) =
      (s.write_pool ≡ some (pool_config cfg cfg.db_dsn))
      × (s.read_pool ≡ some (pool_config cfg cfg.db_dsn_read))
      × (s.rdb ≡ some (cfg.redis_addr, cfg.redis_password))
  IsOpened (not_started e, s) = (s.write_pool ≡ none) × (s.read_pool ≡ none) × (s.rdb ≡ none)

  -- A call keeps this if what follows does, from a state that its cleaning up would empty.
  call-IsOpened :
      (e : StartError) (clean_up : Startup → Startup) (next : Init) (s : Startup)
      → ((fs : List Bool) → IsOpened (not_started e, clean_up (record s { failures = fs })))
      → ((fs : List Bool) → IsOpened (next (record s { failures = fs })))
      → IsOpened (call e clean_up next s)
  call-IsOpened e clean_up next s cleaned h = go s.failures
    where
      go :
          (fs : List Bool) → IsOpened (call_failing fs e clean_up next (record s { failures = fs }))
      go [] = h []
      go (false ∷ fs) = h fs
      go (true ∷ fs) = cleaned fs

  reader-IsOpened :
      (s : Startup)
      → s.write_pool ≡ some (pool_config cfg cfg.db_dsn)
      → s.read_pool ≡ none
      → s.rdb ≡ none
      → IsOpened (connect_reader cfg s)
  reader-IsOpened s w r c =
      call-IsOpened read_config_failed close_write _ s (λ fs. (refl, r, c))
        λ f1.
          call-IsOpened read_pool_failed close_write _ (record s { failures = f1 })
            (λ fs. (refl, r, c))
            λ f2.
              call-IsOpened read_ping_failed close_pools _
                (open_read cfg (record s { failures = f2 })) (λ fs. (refl, refl, c))
                λ f3.
                  call-IsOpened redis_ping_failed close_all _
                    (open_redis cfg (open_read cfg (record s { failures = f3 })))
                    (λ fs. (refl, refl, refl)) λ fs. (w, refl, refl)

  writer-IsOpened : (fs : List Bool) → IsOpened (connect_writer cfg (nothing_open fs))
  writer-IsOpened fs =
      call-IsOpened write_config_failed close_nothing _ (nothing_open fs) (λ gs. (refl, refl, refl))
        λ f1.
          call-IsOpened write_pool_failed close_nothing _ (nothing_open f1)
            (λ gs. (refl, refl, refl))
            λ f2.
              call-IsOpened write_ping_failed close_write _ (open_write cfg (nothing_open f2))
                (λ gs. (refl, refl, refl))
                λ f3. reader-IsOpened (open_write cfg (nothing_open f3)) refl refl refl

  migrate-IsOpened :
      (skip : Bool) (fs : List Bool)
      → ((gs : List Bool) → IsOpened (connect_writer cfg (nothing_open gs)))
      → IsOpened (migrate cfg skip (connect_writer cfg) (nothing_open fs))
  migrate-IsOpened true fs h = h fs
  migrate-IsOpened false fs h =
      call-IsOpened migration_run_failed close_nothing (connect_writer cfg) (nothing_open fs)
        (λ gs. (refl, refl, refl)) h

  -- Whatever call fails, initDatabases leaves no connection open when it returns an error; when it
  -- returns none, both pools and the Redis client are open, with the settings of the configuration.
  pub init_databases-IsOpened : (fs : List Bool) → IsOpened (init_databases cfg (nothing_open fs))
  unfolding init_databases
  init_databases-IsOpened fs = migrate-IsOpened cfg.skip_migrations fs writer-IsOpened
