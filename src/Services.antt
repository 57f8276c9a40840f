-- ===== src/Services.antt =====
-- backend/lorex/services.
pub mod Indexing
pub mod Search
pub mod Targeted
pub mod Downloads
