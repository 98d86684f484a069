-- ===== src/Observability.antt =====
-- src/ingestion_framework/observability
pub mod Alerts
