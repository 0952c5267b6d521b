-- ===== src/Client.antt =====
-- transport/client.go: the pool of sessions and the goroutine that keeps it full.
pub mod Pool
pub mod Reconnect
pub mod Backoff
pub mod Dial
