-- ===== src/Tasks/WorkItem.antt =====
-- internal/tasks/domain/workitem: a task of a member, with its states, its assignee and its events.
pub mod Catalogues
pub mod Item
pub mod Transitions
pub mod Lifecycle
pub mod Refinement
