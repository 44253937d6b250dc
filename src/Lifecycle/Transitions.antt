-- ===== src/Lifecycle/Transitions.antt =====
-- Laws of the task transitions of src/app/modules/ai/lifecycle/tasks.py.
pub mod Operations
pub mod Answers
pub mod Effects
pub mod Workflow
