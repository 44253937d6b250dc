-- ===== src/Lifecycle/Delivery.antt =====
-- Laws of the signal adapters of src/app/modules/ai/lifecycle/service.py.
pub mod Requests
pub mod Keys
pub mod Frames
pub mod TaskFrames
pub mod Locked
pub mod Forever
pub mod Recorded
pub mod Again
