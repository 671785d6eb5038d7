-- ===== src/Middleware.antt =====
-- Package middleware: the handlers that wrap every request, and the state that they keep.
pub mod Http
pub mod RateLimit
pub mod Auth
pub mod Cleanup
pub mod Wrappers
pub mod Client
pub mod Origin
