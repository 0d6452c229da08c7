-- ===== src/Invitations.antt =====
-- The invitations of internal/invitations: their model, the service's use cases and the email jobs.
pub mod Model
pub mod Delivery
pub mod Manage
pub mod Accept
pub mod Ledger
pub mod Statements
pub mod Joining
pub mod Acceptance
pub mod Requests
pub mod Dispatched
pub mod Kept
pub mod Served
pub mod Accepted
pub mod Refused
pub mod Resent
pub mod Sent
pub mod Mailed
