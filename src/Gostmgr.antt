-- ===== src/Gostmgr.antt =====
-- internal/gostmgr: the configuration that the panel writes for gost.
pub mod Schema
pub mod Protocol
pub mod Config
pub mod Client
