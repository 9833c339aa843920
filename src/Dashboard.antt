-- ===== src/Dashboard.antt =====
-- middleware/dashboard.cache.ts: the snapshot cache of the public dashboard.
pub mod Query
pub mod Cache
pub mod System
pub mod Guard
