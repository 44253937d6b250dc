-- ===== src/Lifecycle/Derivations.antt =====
-- Laws of the work-item transitions of src/app/modules/ai/lifecycle/work_items.py.
pub mod Requests
pub mod Derived
