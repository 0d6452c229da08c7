-- ===== src/Organizations.antt =====
-- internal/organizations/service.go: tenants, roles, members, and the creation of an organization.
pub mod Tenant
pub mod Create
pub mod Access
pub mod Requests
pub mod Owners
pub mod Roles
pub mod Members
pub mod Guards
pub mod Hidden
pub mod Grants
