-- ===== src/Downloader.antt =====
-- backend/lorex/downloader.
pub mod Providers
pub mod Article
pub mod Engine
pub mod Progress
