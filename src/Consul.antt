-- ===== src/Consul.antt =====
-- consul.go: the Consul backend. The Consul SDK is not part of the repository: what the backend
-- passes to it and gets from it are the records below, and its calls are parameters.
pub mod Meta
pub mod Agent
pub mod Registration
pub mod Backoff
pub mod Heartbeat
pub mod Client
pub mod RoundRobin
pub mod Api
pub mod Registry
pub mod AsBackend
pub mod Watch
pub mod Sleep
pub mod Feed
pub mod Ticker
