-- ===== src/Auth.antt =====
-- internal/auth: browser sessions and the tickets of WebSocket upgrades.
pub mod Jwt
pub mod Session
pub mod Ticket
pub mod Purposes
pub mod Revocation
pub mod SingleUse
pub mod Scope
mod Codec
pub mod Tests
