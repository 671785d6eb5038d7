-- ===== src/Sse.antt =====
-- Package sse: the connections of the event stream, and the broadcaster that feeds them.
pub mod Manager
pub mod Broadcaster
