-- ===== src/StorageHandler.antt =====
-- handlers/storage/StorageDeviceHandler.cpp: the handler of storage devices, in a build without
-- WEBOS_SESSION.
pub mod State
pub mod Events
pub mod Requests
pub mod Power
pub mod Reach
