-- ===== src/Common.antt =====
-- common/: the building blocks that the exchange and the trading system share.
pub mod LfQueue
pub mod Logging
pub mod MemPool
pub mod MulticastSocket
pub mod Printing
pub mod SocketUtils
pub mod TcpServer
pub mod TcpSocket
pub mod Types
pub mod Wire
