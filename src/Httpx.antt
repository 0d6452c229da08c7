-- ===== src/Httpx.antt =====
-- The HTTP kernel that the services share (internal/httpx): errors and pagination.
pub mod Errors
pub mod Pagination
pub mod Pages
