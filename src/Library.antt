-- ===== src/Library.antt =====
-- backend/lorex/library: the import of a download into the library.
pub mod Archive
pub mod Filesystem
pub mod Media
pub mod Pipeline
