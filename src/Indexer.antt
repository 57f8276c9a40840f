-- ===== src/Indexer.antt =====
-- backend/lorex/indexer: subjects, groups of headers, the streaming grouper.
pub mod Subject
pub mod Group
pub mod Grouper
pub mod Classifier
