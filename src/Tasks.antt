-- ===== src/Tasks.antt =====
-- The fields of a task, from internal/tasks/model.go.
pub mod Model
pub mod Changes
