-- ===== src/Client.antt =====
-- pkg/client: the Go client of the platform's API.
pub mod Retry
pub mod Http
pub mod Api
pub mod Ws
pub mod Sse
pub mod ApiError
