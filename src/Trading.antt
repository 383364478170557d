-- ===== src/Trading.antt =====
-- trading/: the client's view of the market, its strategies, its orders and positions.
pub mod MarketOrderBook
pub mod OrderManager
pub mod RiskManager
pub mod PositionKeeper
pub mod FeatureEngine
pub mod Strategies
pub mod TradeEngine
pub mod RandomClient
pub mod OrderGateway
pub mod MarketDataConsumer
