-- ===== src/Enums.antt =====
-- src/app/modules/ai/enums.py: the string enums that models and schemas share. A member is a
-- constructor; `open`, a reserved word, is `opened`, and the outcome `ok` is `succeeded`.
pub mod Lifecycle
pub mod Runtime
