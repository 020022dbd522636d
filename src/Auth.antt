-- ===== src/Auth.antt =====
-- backend/internal/auth: rate limits, client addresses, signed cookies.
pub mod Limiter
pub mod ClientIp
pub mod Sessions
