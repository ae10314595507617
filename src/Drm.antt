-- ===== src/Drm.antt =====
-- The objects of a DRM device as the program keeps them.
pub mod Property
pub mod Mode
pub mod Crtc
pub mod Plane
pub mod Connector
pub mod Objects
pub mod Device
