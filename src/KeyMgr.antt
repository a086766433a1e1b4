-- ===== src/KeyMgr.antt =====
-- internal/keymgr: the key manager.
pub mod Cache
pub mod Compact
