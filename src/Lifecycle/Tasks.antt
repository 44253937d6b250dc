-- ===== src/Lifecycle/Tasks.antt =====
-- src/app/modules/ai/lifecycle/tasks.py: the transitions T1 to T12 of a task.
mod Steps
mod Planning
mod Review
unfoldable pub use Steps.*
unfoldable pub use Planning.*
unfoldable pub use Review.*
