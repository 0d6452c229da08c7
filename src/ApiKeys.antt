-- ===== src/ApiKeys.antt =====
-- The API keys of internal/apikeys.
pub mod Service
pub mod Credentials
