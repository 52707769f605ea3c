-- ===== src/Aggregator.antt =====
-- internal/aggregator: polling CoinGecko and turning its records into events.
pub mod Coingecko
pub mod Processor
pub mod Service
