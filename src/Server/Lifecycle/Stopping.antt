-- ===== src/Server/Lifecycle/Stopping.antt =====
-- How `run` of cmd/server/main.go ends, and when.
use holdex_backend_cqrs.Prelude.{
  ℕ, ◌+◌, ◌*◌, ◌≤◌, ◌≡◌, true, false, none, List, [], ◌∷◌, ltb, if◌then◌else◌,
}
use holdex_backend_cqrs.Config.{Config}
use holdex_backend_cqrs.Server.{Startup}
use holdex_backend_cqrs.Server.Lifecycle.{
  Daemon, outbox_publisher, projector, aggregator, price_history_pruner, Serving, absent, serving,
  not_listening, stopped, handlers_left, cut_off, Process, Environment, second, Exit,
  exited_cleanly, initialization_failed, servers_failed,
}

abbrev every_daemon : List Daemon
every_daemon = outbox_publisher ∷ projector ∷ aggregator ∷ price_history_pruner ∷ []

-- A server that accepts no request any more; after a timeout some of its handlers may still run.
abbrev pub IsDown : Serving → Type 0
IsDown absent = Unit
IsDown (serving port) = ⊥
IsDown (not_listening port) = Unit
IsDown stopped = Unit
IsDown handlers_left = Unit
IsDown cut_off = Unit

abbrev pub IsClosed : Startup → Type 0
IsClosed s = (s.write_pool ≡ none) × (s.read_pool ≡ none) × (s.rdb ≡ none)

-- The time of the signal, or the start of the wait if that is later.
abbrev pub waits_until : Environment → ℕ → ℕ
waits_until env now = if ltb now env.signal_at then env.signal_at else now

module _ (env : Environment) (bound closing : ℕ) where
  -- When each server is down, and no daemon runs, by the time `at`.
  abbrev IsStopped : ℕ → Process → Type 0
  IsStopped at p =
      (p.daemons ≡ []) × (p.cancelled ≡ true) × IsDown p.http × IsDown p.grpc × (p.now ≤ at)

  -- What `run` leaves behind. Nothing, after a signal and after an error of initDatabases; but after
  -- an error of startServers the connections are closed under the four daemons.
  abbrev pub IsOver : ℕ → Exit × Process → Type 0
  IsOver now (exited_cleanly, p) =
      IsClosed p.connections
      × IsStopped (waits_until env now + bound + 15 * second + env.hard_stop + closing) p
  IsOver now (initialization_failed e, p) =
      IsClosed p.connections × (p.daemons ≡ []) × (p.http ≡ absent) × (p.grpc ≡ absent)
  IsOver now (servers_failed, p) =
      IsClosed p.connections
      × (p.daemons ≡ every_daemon)
      × (env.grpc_port_free ≡ false)
      × (p.http ≡ absent)
      × (p.grpc ≡ absent)
      × (p.now ≤ now + closing)
