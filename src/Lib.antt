-- ===== src/Lib.antt =====
-- A verification library for holdex-backend-cqrs: an event-sourced CQRS backend in Go, which
-- polls market data from CoinGecko, keeps it as events in PostgreSQL, publishes the events on
-- Redis through an outbox, and projects them into read models.
--
-- The parts and how they interact. The client (internal/aggregator/coingecko/client.go) fetches
-- records behind a circuit breaker; the processor (internal/aggregator/processor.go) turns each
-- record into the next event of its coin, through the aggregate (internal/domain); the event
-- store (internal/eventstore/store.go) appends the event and its outbox entry in one
-- transaction; the outbox publisher (internal/eventstore/outbox.go) sends the entries to the
-- channel and deletes them; the projector (internal/projection/projector.go) reads the events
-- table behind its checkpoint and writes the read models (internal/projection/readmodel.go). The
-- query service (internal/query) reads them through a cache, and the GraphQL and gRPC interfaces
-- (api/graphql, api/grpc) answer from it; the server opens its connections after it has run the
-- migrations (internal/database).
--
-- The files, with the code that each models:
-- - Prelude, Result, Json: the library names and lists in use; the errors of the program, one
--   constructor for each place that makes one; encoding/json on the documents that the program
--   writes.
-- - Tables: the rows of migrations/*.up.sql. World: the database, the channel, the cache and the
--   faults to come, and a monad for calls that may fail; a transaction rolls back on an error.
-- - Domain, Domain/Market: BaseEvent, BaseAggregateRoot, the market aggregate with HandleCommand
--   and Apply, its command, event and payload.
-- - EventStore: AppendEvents (append_events), LoadEvents, GetLatestEvent, serializeEvent,
--   deserializeRawJSON, deserializeEvent. EventStore/Codec, Append, Numbering and Reading hold
--   its proofs. Append/Sessions: the statements of several AppendEvents at once, as a step
--   relation (Action) under the advisory lock, whose key is a parameter; proofs in
--   Sessions/Turns and Isolation.
-- - EventStore/Outbox: publishBatch (publish_batch) and the loop of Start (start); proofs in
--   Outbox/Batch, Drain, Interval and Delivery. Outbox/Workers: several publishers on one
--   outbox, as a step relation (WorkerStep) of the actions of publishBatch; proofs in
--   Workers/Counting, Ledger and Batches. EventStore/Subscription: Subscribe (subscribe); proofs
--   in Subscription/Delivering.
-- - Aggregator/Coingecko, Coingecko/Circuit: executeWithRetry, FetchMarketData, and the breaker;
--   proofs in Coingecko/Breaking, Retrying and Keeping. Aggregator/Processor: ProcessMarketData
--   (process_market_data); proofs in Processor/Hydration, Recording, Log and Success.
--   Aggregator/Service: fetchAndProcess and the loop of Start (internal/aggregator/service.go);
--   proofs in Service/Polling.
-- - Projection/ReadModel, Projection/Projector: the statements on the read model, Project, the
--   loop over a batch (project_batch) and the rounds of Start; proofs in Projector/Batch,
--   Frames, Rounds, Progressing, Summaries, Keeping, Advancing, Behind and CatchingUp.
-- - Projection/Queries: GetMarketSummaries, GetMarketSummary, GetPriceHistory and
--   GetPriceHistories; proofs in Queries/Batching and ReadBack.
-- - Query/Documents, Query/CachedRepo, Query/Service: the documents in the cache, Get and Set of
--   internal/cache/redis.go, the four queries of internal/query/cached_repo.go, and the service;
--   proofs in Documents/RoundTrip, CachedRepo/Staleness, Recent and Invalidation.
-- - Database/Migration: RunMigrations and RollbackMigrations; proofs in Migration/Applying,
--   Repeating and Reverting. Migration/Command: cmd/migrate/main.go.
-- - Config: Load and getEnv (internal/config/config.go), with the parsers of the standard
--   library as a parameter; proofs in Config/Reading. Config/Printing: String and maskDSN;
--   proofs in Printing/Masking.
-- - Api/Limiting: the rate limiter by address, its sweeper and its middleware (api/handler.go),
--   with the token bucket of golang.org/x/time/rate as a parameter; proofs in
--   Limiting/Isolation. Api/Http: the routes, the health check and the labels of the metrics;
--   proofs in Http/Labels. Api/Http/Metrics: a request through the whole handler, from
--   PrometheusMiddleware to the handlers of other packages, which are parameters; proofs in
--   Metrics/Counting and Answering. Api/Http/Tracing: OTelTracingMiddleware around it.
-- - Api/Graphql/Dataloader: NewPriceHistoryDataloader, Load and dispatch; its states in
--   Dataloader/Waiting, proofs in Dataloader/Grouping, Delivery and FromReadModel.
--   Api/Graphql/Resolvers: the resolvers of schema.resolvers.go. Api/Grpc: the handlers of
--   api/grpc/server.go and the rate limit of interceptors.go; proofs in Grpc/Updates.
--   Api/Grpc/Tracing: the interceptors for tracing and metadataCarrier. Api/Streaming: what a
--   loop over events meets. Api/Agreement: the two interfaces against each other.
-- - Pipeline: the parts together: a quote from ProcessMarketData to the answers of the
--   interfaces (Pipeline/Answering) and to their streams (Pipeline/Streaming); any operations of
--   the processor, the publisher, the projector and the pruner in any order (Pipeline/Integrity
--   and Delivering, with what each leaves unchanged in Pipeline/Frames, Pipeline/Unsent and
--   World/Frames).
-- - Server: initDatabases and the pruner of cmd/server/main.go; proofs in Server/Opening and
--   Pruning. Server/Lifecycle: run, startBackgroundDaemons, startServers and
--   handleGracefulShutdown, with the time that they take; proofs in Lifecycle/Stopping. Logger:
--   Init and Handle of pkg/logger/logger.go.
-- - Examples: the theorems at concrete inputs.
--
-- What the model rests on. A world carries a list of faults: each call of a service takes the
-- next entry, fails if it is set, and nothing fails behind the end of the list; so a theorem
-- over all worlds holds for every pattern of failures. A statement that PostgreSQL refuses
-- because of a value (a VARCHAR that is too long, an INTEGER out of range, a zero character in
-- JSONB) is such a fault. What a column keeps of a time or of a number is a parameter (Columns);
-- a JSONB column gives back the document, whose order of members and sign of a negative zero are
-- not modelled. On a world, transactions are steps one after the other, and the rows that other
-- publishers hold are a parameter of each batch; what sessions and workers do between each
-- other's statements is in Append/Sessions and Outbox/Workers, where each statement is atomic
-- and sees what is committed. A time is its nanoseconds since 1970, a float64 its 64 bits, a
-- version a natural number. time.Now, the network, the jitter and the cancellation of a request
-- are arguments. The order that PostgreSQL gives rows which compare equal, for each query and
-- each LIMIT and OFFSET its own, or a result without ORDER BY, is a parameter (Ordering); so are
-- the order in which Go ranges over a map, the text of a number and of a time, net/url and
-- Sprintf, the files of the migrations with what their scripts do to a schema (Directory), and
-- the function under singleflight is modelled as a run of it.
--
-- Bounds and fuel: the loops of the publisher, the projector, the subscriber and the aggregator
-- service run for a given number of rounds, and the theorems hold for any number;
-- executeWithRetry has its three rounds, a streaming loop its turns, the pruner its ticks, and
-- every other loop is a recursion on a list.
--
-- Not modelled: generated code, and the text of the log output.
pub mod Prelude
pub mod Result
pub mod Json
pub mod Tables
pub mod World
pub mod Domain
pub mod EventStore
pub mod Aggregator
pub mod Projection
pub mod Query
pub mod Database
pub mod Config
pub mod Api
pub mod Pipeline
pub mod Logger
pub mod Server
pub mod Examples
