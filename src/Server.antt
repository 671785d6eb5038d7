-- ===== src/Server.antt =====
-- Package server: the handlers behind the middleware.
pub mod Connectivity
pub mod Reconnect
pub mod Shutdown
pub mod Streams
pub mod Routes
pub mod Reply
pub mod Health
pub mod Outbounds
pub mod Caches
pub mod Logs
pub mod Stats
