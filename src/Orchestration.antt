-- ===== src/Orchestration.antt =====
-- src/ingestion_framework/orchestration
pub mod Lifecycle
pub mod Runner
pub mod Order
pub mod Batch
pub mod Bundle
