-- ===== src/Trading.antt =====
-- trading_system/: the client of the exchange.
pub mod FeatureEngine
pub mod OrderGateway
pub mod OrderManager
pub mod MarketOrderBook
pub mod PositionInfo
pub mod RiskManager
pub mod MarketDataConsumer
