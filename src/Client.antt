-- ===== src/Client.antt =====
-- internal/agent/client: how a client sets up its subnets, its heartbeat, and its reaction to what
-- the watch of the store reports.
pub mod Heartbeat
pub mod Remote
pub mod Init
pub mod Identity
pub mod Goroutines
pub mod Start
pub mod Discovery
