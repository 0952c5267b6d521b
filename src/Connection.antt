-- ===== src/Connection.antt =====
-- transport/connection.go: the three kinds of connection behind the interface `Connection`.
pub mod Net
pub mod Stats
pub mod Tcp
pub mod Udp
pub mod Ws
pub mod Conn
pub mod Polling
