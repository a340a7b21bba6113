-- ===== src/Net.antt =====
-- gdrpc/net: the reactor and the TCP connections.
pub mod Buffer
pub mod Channel
pub mod Poller
pub mod Connection
pub mod ThreadPool
pub mod EventLoop
pub mod Connector
pub mod TcpServer
pub mod TcpClient
pub mod LoopThread
pub mod LoopTurn
pub mod InetAddress
pub mod SampleNet
