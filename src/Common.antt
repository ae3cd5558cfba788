-- ===== src/Common.antt =====
-- Motes/lib/common: the JSON helpers and the device name.
pub mod Json
pub mod Urn
