-- ===== src/ConfigSpace.antt =====
-- adapters/config-space/src/lib.rs: the NVS backend of the configuration spaces.
pub mod Record
pub mod Units
pub mod Backend
