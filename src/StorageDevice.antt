-- ===== src/StorageDevice.antt =====
-- devices/storage/StorageDevice.cpp: a storage device and its partitions.
pub mod State
pub mod Mount
pub mod Attach
pub mod Info
pub mod Commands
pub mod Power
pub mod Removal
