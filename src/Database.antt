-- ===== src/Database.antt =====
-- The database that the services share: the tables of internal/db/models.go, and the statements of
-- internal/db/*.sql.go as functions on them.
pub mod Tables
pub mod Rows
pub mod Runs
pub mod Roles
pub mod Memberships
pub mod Organizations
pub mod Users
pub mod RefreshTokens
pub mod Invitations
pub mod ApiKeys
