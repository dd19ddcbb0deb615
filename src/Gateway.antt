-- ===== src/Gateway.antt =====
-- The HTTP gateway, src/gateway: the modules are named for its classes.
pub mod RateLimiter
pub mod Router
pub mod Jwt
pub mod Service
mod Examples
