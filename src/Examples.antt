-- ===== src/Examples.antt =====
-- Concrete devices and displays, and the results of the development at them.
mod Fixtures
mod Planning
mod Devices
mod Displays
mod Commits
mod Threads
mod Buffers
mod Cards
mod Hotplug
mod Flattening
mod Blobs
mod Lives
