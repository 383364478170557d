-- ===== src/Exchange.antt =====
-- exchange/: the matching engine, the order server and the market data of the exchange.
pub mod MeOrderBook
pub mod MatchingEngine
pub mod FifoSequencer
pub mod OrderServer
pub mod SnapshotSynthesizer
pub mod MarketDataPublisher
pub mod Shutdown
