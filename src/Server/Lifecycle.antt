-- ===== src/Server/Lifecycle.antt =====
-- cmd/server/main.go: `run`, which starts the daemons and the two servers, waits for a signal, and
-- shuts down. Times are in nanoseconds. How long a daemon, net/http and google.golang.org/grpc take
-- to stop is the environment's choice, and so is whether a port can be listened on.
pub mod Stopping
use holdex_backend_cqrs.Prelude.{
  ℕ, ◌+◌, ◌*◌, ◌^◌, String, Bool, true, false, Option, none, some, List, [], ◌∷◌, ◌++◌, ltb, leb,
  if◌then◌else◌,
}
use holdex_backend_cqrs.Config.{Config}
use holdex_backend_cqrs.Server.{
  Startup, Outcome, started, not_started, StartError, init_databases, close_write,
}

pub data Daemon : Type 0 where
  outbox_publisher projector aggregator price_history_pruner : Daemon

-- A server that was never started, that serves a port, that could not listen on it, that stopped with
-- every request answered, that has stopped listening while handlers still run, or whose calls were cut
-- off.
pub data Serving : Type 0 where
  absent : Serving
  serving : String → Serving
  not_listening : String → Serving
  stopped : Serving
  handlers_left : Serving
  cut_off : Serving

-- What the process holds, and the time.
pub record Process : Type 0 where
  pub connections : Startup
  pub daemons : List Daemon
  pub cancelled : Bool
  pub http : Serving
  pub grpc : Serving
  pub now : ℕ

pub record Environment : Type 0 where
  -- whether net.Listen and ListenAndServe can listen on the ports
  pub grpc_port_free : Bool
  pub http_port_free : Bool
  -- when a signal arrives, and how long a daemon runs on after its context is cancelled
  pub signal_at : ℕ
  pub runs_on : Daemon → ℕ
  -- http.Server.Shutdown under a timeout: whether it ends without an error, and how long it takes
  pub http_shutdown : ℕ → Bool × ℕ
  -- how long GracefulStop takes, if it ends, and how long Stop takes
  pub graceful_stop : Option ℕ
  pub hard_stop : ℕ
  -- how long the deferred Close of the pools waits until each connection in use is returned, by what
  -- is still running
  pub close_pools : List Daemon → Serving → ℕ

abbrev pub second : ℕ
second = 10 ^ 9

unfoldable pub start_background_daemons : Process → Process
start_background_daemons p = record p {
  daemons = p.daemons ++ outbox_publisher ∷ projector ∷ aggregator ∷ price_history_pruner ∷ [];
}

abbrev pub listen : Bool → String → Serving
listen true port = serving port
listen false port = not_listening port

module _ (env : Environment) where
  -- An error of net.Listen is returned, one of ListenAndServe is logged by its goroutine.
  unfoldable pub start_servers : Config → Process → Bool × Process
  start_servers cfg p =
      if env.grpc_port_free
      then (
        true,
        record p { grpc = serving cfg.grpc_port; http = listen env.http_port_free cfg.port },
      )
      else (false, p)

  abbrev pub longest : List Daemon → ℕ
  longest [] = 0
  longest (d ∷ ds) =
      let rest = longest ds in if leb rest (env.runs_on d) then env.runs_on d else rest

  abbrev pub stop_context : Process → Process
  stop_context p = record p { cancelled = true }

  -- wg.Wait
  abbrev pub wait_daemons : Process → Process
  wait_daemons p = record p { daemons = []; now = p.now + longest p.daemons }

  abbrev pub stop_http : Process → Process
  stop_http p =
      let (clean, took) = env.http_shutdown (10 * second) in
      record p { http = if clean then stopped else handlers_left; now = p.now + took }

  abbrev pub force_stop : Process → Process
  force_stop p = record p { grpc = cut_off; now = p.now + 5 * second + env.hard_stop }

  -- The select between the graceful stop and its timeout.
  abbrev pub await_graceful : Option ℕ → Process → Process
  await_graceful none p = force_stop p
  await_graceful (some t) p =
      if ltb t (5 * second) then record p { grpc = stopped; now = p.now + t } else force_stop p

  abbrev pub await_signal : Process → Process
  await_signal p = if ltb p.now env.signal_at then record p { now = env.signal_at } else p

  unfoldable pub handle_graceful_shutdown : Process → Process
  handle_graceful_shutdown p =
      await_graceful env.graceful_stop (stop_http (wait_daemons (stop_context (await_signal p))))

-- The deferred calls: the connections, the last one first, and the context after them.
abbrev pub close_connections : Environment → Process → Process
close_connections env p = record p {
  connections = record p.connections { rdb = none; read_pool = none; write_pool = none };
  cancelled = true;
  now = p.now + env.close_pools p.daemons p.http;
}

pub data Exit : Type 0 where
  exited_cleanly : Exit
  initialization_failed : StartError → Exit
  servers_failed : Exit

abbrev pub initial : List Bool → ℕ → Process
initial failures now = record {
  connections = record { write_pool = none; read_pool = none; rdb = none; failures = failures };
  daemons = [];
  cancelled = false;
  http = absent;
  grpc = absent;
  now = now;
}

module _ (env : Environment) (cfg : Config) where
  abbrev pub serve_until_signal : Bool × Process → Exit × Process
  serve_until_signal (false, p) = (servers_failed, close_connections env p)
  serve_until_signal (true, p) =
      (exited_cleanly, close_connections env (handle_graceful_shutdown env p))

  abbrev pub run_from : Outcome × Startup → Process → Exit × Process
  run_from (not_started e, s) p =
      (initialization_failed e, record p { connections = s; cancelled = true })
  run_from (started, s) p =
      serve_until_signal
        (start_servers env cfg (start_background_daemons (record p { connections = s })))

  unfoldable pub run : Process → Exit × Process
  unfolding init_databases start_background_daemons start_servers handle_graceful_shutdown
  run p = run_from (init_databases cfg p.connections) p
