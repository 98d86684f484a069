-- ===== src/Engine.antt =====
-- src/ingestion_framework/engine
pub mod Checks
pub mod Expectations
pub mod Batches
pub mod Sql
pub mod Staging
pub mod Merge
pub mod Cluster
pub mod Transformer
pub mod Loader
pub mod Extractor
pub mod Assembled
