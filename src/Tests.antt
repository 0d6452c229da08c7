-- ===== src/Tests.antt =====
-- The theorems at concrete inputs.
mod Sessions
mod Tenants
mod Texts
mod Invitations
mod Jobs
mod Tasks
mod ApiKeys
