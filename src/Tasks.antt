-- ===== src/Tasks.antt =====
-- The tasks module of the server (internal/tasks): the work items of a tenant.
pub mod WorkItem
mod Examples
