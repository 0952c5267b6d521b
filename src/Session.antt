-- ===== src/Session.antt =====
-- transport/session.go: the struct `session`. A method takes the record and returns the new one with
-- its results; each is one critical section or a sequence of them with nothing in between.
pub mod State
pub mod Limits
pub mod Setters
pub mod Forwards
pub mod Write
pub mod Packages
pub mod Receive
pub mod Lifecycle
pub mod Events
pub mod Resets
pub mod Startup
pub mod Handling
pub mod Heartbeat
