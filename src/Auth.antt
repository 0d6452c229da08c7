-- ===== src/Auth.antt =====
-- internal/auth: sessions, their refresh tokens, and registration.
pub mod Tokens
pub mod Sessions
pub mod Register
pub mod Frame
pub mod Registration
pub mod Registered
pub mod Families
pub mod Issued
pub mod Rotation
pub mod Reuse
pub mod Requests
pub mod Exchange
pub mod Issue
pub mod OneLive
