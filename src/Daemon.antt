-- ===== src/Daemon.antt =====
-- internal/daemon: the parts of the JSON-RPC server.
pub mod RateLimiter
pub mod Limits
pub mod Sessions
pub mod Policy
pub mod Rpc
pub mod Commands
pub mod Server
pub mod Batch
