-- ===== src/Tests.antt =====
-- Instances of the theorems, and runs of the definitions, on concrete inputs.
mod Fixtures
mod Write
mod Receive
mod Lifecycle
mod Client
mod Server
mod Datagrams
mod Packages
mod Callbacks
mod Echo
mod Polling
mod Dial
mod Resets
mod Handling
