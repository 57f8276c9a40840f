-- ===== src/Repository.antt =====
-- backend/lorex/repository.py: the stores in memory.
pub mod Releases
pub mod Jobs
