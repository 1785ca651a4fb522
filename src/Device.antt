-- ===== src/Device.antt =====
-- components/ulmk_device_manager: the registry of device servers.
pub mod Path
pub mod Strings
pub mod Table
pub mod Registry
pub mod Unique
mod Tests
