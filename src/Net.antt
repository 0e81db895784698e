-- ===== src/Net.antt =====
-- The network library under net/: buffers, timers, channels, connections, loops and servers.
pub mod Sockets
pub mod Acceptor
pub mod Client
pub mod Buffer
pub mod Outcome
pub mod Channel
pub mod Poller
pub mod Connection
pub mod Timestamp
pub mod Timer
pub mod Pool
pub mod Server
pub mod Loop
