-- ===== src/Metadata.antt =====
-- backend/lorex/metadata: the lookup of bibliographic data.
pub mod Model
pub mod Cache
pub mod Resolver
pub mod Artwork
