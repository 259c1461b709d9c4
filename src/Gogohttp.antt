-- ===== src/Gogohttp.antt =====
-- modules/gogohttp: the HTTP/1.x request parser, the response writer and the connection loop.
pub mod Types
pub mod Scan
pub mod Parser
pub mod Conn
pub mod Response
pub mod Server
mod Tests
