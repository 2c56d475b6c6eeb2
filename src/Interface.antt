-- ===== src/Interface.antt =====
-- apps/bzy-interface: the gateway that clients connect to.
mod Examples
pub mod Channels
pub mod Middleware
pub mod Jwt
pub mod Login
pub mod Routes
pub mod Session
pub mod Streaming
pub mod Ws
