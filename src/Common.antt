-- ===== src/Common.antt =====
-- common/: what the exchange and the trading client share.
pub mod Types
pub mod Limits
pub mod Double
pub mod Messages
pub mod MemoryPool
pub mod SafeQueue
pub mod TcpServer
pub mod McastSocket
pub mod TcpSocket
pub mod SocketUtils
pub mod Logger
