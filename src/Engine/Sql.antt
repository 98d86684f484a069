-- ===== src/Engine/Sql.antt =====
-- src/ingestion_framework/engine/sql_builder.py: the queries that an extract sends to Oracle.
pub mod Literals
pub mod Predicates
pub mod Queries
pub mod Templates
