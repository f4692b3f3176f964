-- ===== src/Utils.antt =====
-- The package utils: what the device reports about itself.
pub mod Contains
pub mod NetStat
