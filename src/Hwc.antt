-- ===== src/Hwc.antt =====
-- drmhwctwo.cpp: the HWC2 device that Android talks to.
pub mod CompositionType
pub mod BlendMode
pub mod Layer
pub mod Display
pub mod Validate
pub mod Present
pub mod Config
pub mod Hooks
pub mod Queries
pub mod Functions
pub mod Device
