-- ===== src/Config.antt =====
-- src/ingestion_framework/config: the layers of the configuration and how they are merged.
pub mod Tree
pub mod Merger
pub mod Resolver
