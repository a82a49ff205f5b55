-- ===== src/Exchange.antt =====
-- exchange/: the order server, the matching engine and the market data of the exchange.
pub mod Messages
pub mod OrderBook
pub mod MatchingEngine
pub mod Sequencer
pub mod OrderServer
pub mod SnapshotSynthesizer
pub mod MarketDataPublisher
pub mod System
