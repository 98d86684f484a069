-- ===== src/Control.antt =====
-- src/ingestion_framework/control
pub mod Schema
pub mod Status
pub mod Tables
pub mod World
pub mod Watermark
pub mod WatermarkStore
pub mod Store
pub mod Audit
pub mod Effects
pub mod Marks
pub mod Total
