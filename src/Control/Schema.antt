-- ===== src/Control/Schema.antt =====
-- src/ingestion_framework/control/schema.py: the definitions of the control tables and their DDL.
pub mod Laws
use oracle_repo.Base.{
  String, ◌<>◌, ◌==◌, Bool, true, false, not, ◌&&◌, ◌||◌, List, [], ◌∷◌, ◌++◌, map, all, any,
  is_empty, if◌then◌else◌,
}
use oracle_repo.Base.Text.{join, double_quotes, is_blank}
use oracle_repo.Base.Text.Scan.{plain_identifier}
use oracle_repo.Base.Dict.{put, put_all, sorted}
use oracle_repo.Platform.{control_schema_error, Result, ok, err, and_then}

unfoldable pub qualify : List String → Result String
unfolding plain_identifier
qualify parts = if all plain_identifier parts then ok (join "." parts) else err control_schema_error

pub record Column : Type 0 where
  pub name : String
  pub type : String
  pub comment : String
  pub nullable : Bool

abbrev pub column : String → String → String → Bool → Column
column name type comment nullable = record {
  name = name;
  type = type;
  comment = comment;
  nullable = nullable;
}

-- `_escape` is `double_quotes`.
comment_clause : String → List String
comment_clause s = if is_blank s then [] else ("COMMENT '" <> (double_quotes s <> "'")) ∷ []

unfoldable pub to_sql : Column → String
unfolding comment_clause
to_sql c =
    join " "
      (c.name ∷ c.type ∷ ((if c.nullable then [] else "NOT NULL" ∷ []) ++ comment_clause c.comment))

pub record TableDef : Type 0 where
  pub name : String
  pub comment : String
  pub columns : List Column
  pub cluster_by : List String
  pub properties : List (String × String)

unfoldable pub column_names : TableDef → List String
column_names t = map (λ c. c.name) t.columns

unfoldable pub defines : TableDef → String → Bool
unfolding column_names
defines t c = any (λ n. n == c) (column_names t)

cluster_clause : TableDef → Result (List String)
unfolding defines
cluster_clause t =
    if is_empty t.cluster_by
    then ok []
    else if all (defines t) t.cluster_by
    then ok (("CLUSTER BY (" <> (join ", " t.cluster_by <> ")")) ∷ [])
    else err control_schema_error

-- `TBLPROPERTIES (…)`, by the order of the keys
properties_clause : TableDef → String
unfolding put_all sorted
properties_clause t =
    "TBLPROPERTIES ("
    <> (join ", " (
          map (λ e. "'" <> (e.0 <> ("' = '" <> (double_quotes e.1 <> "'"))))
            (sorted (λ e. e.0)
              (put_all t.properties (("delta.enableDeletionVectors", "true") ∷ []))))
        <> ")")

unfoldable pub create_sql : TableDef → String → String → Result String
unfolding qualify to_sql comment_clause cluster_clause properties_clause
create_sql t catalog schema = and_then (qualify (catalog ∷ schema ∷ t.name ∷ [])) (λ fqn.
    and_then (cluster_clause t) (λ cluster. ok (
      join "\n" (
        ("CREATE TABLE IF NOT EXISTS " <> (fqn <> " ("))
        ∷ ("  " <> join ",\n  " (map to_sql t.columns))
        ∷ ")"
        ∷ "USING DELTA"
        ∷ (comment_clause t.comment ++ (cluster ++ (properties_clause t ∷ [])))))))

abbrev pub config_registry_table : TableDef
config_registry_table = record {
  name = "config_registry";
  comment = "Every distinct effective config the framework has run with, keyed by content hash.";
  columns =
      column "config_hash" "STRING" "SHA-256 of the canonical effective config" false
      ∷ column "table_fqn" "STRING" "domain.table" false
      ∷ column "env" "STRING" "" false
      ∷ column "resolved_json" "STRING" "The full effective config as JSON" true
      ∷ column "config_sources" "ARRAY<STRING>" "Files that contributed, in merge order" true
      ∷ column "first_seen_at" "TIMESTAMP" "" true
      ∷ column "last_seen_at" "TIMESTAMP" "" true
      ∷ column "last_run_id" "STRING" "" true
      ∷ [];
  cluster_by = "table_fqn" ∷ "env" ∷ [];
  properties = [];
}

abbrev pub watermarks_table : TableDef
watermarks_table = record {
  name = "watermarks";
  comment = "Current high-water mark per table and environment. One row per (table_fqn, env).";
  columns =
      column "table_fqn" "STRING" "" false
      ∷ column "env" "STRING" "" false
      ∷ column "watermark_column" "STRING" "Source column, or ORA_ROWSCN for SCN strategy" true
      ∷ column "watermark_type" "STRING" "timestamp | date | number" true
      ∷ column "watermark_value" "STRING"
          "Canonical string form; typed comparison happens in the framework" true
      ∷ column "previous_value" "STRING" "Value before the last advance, for recovery" true
      ∷ column "run_id" "STRING" "Run that last advanced this watermark (fencing token)" true
      ∷ column "updated_at" "TIMESTAMP" "" true
      ∷ [];
  cluster_by = "table_fqn" ∷ "env" ∷ [];
  properties = [];
}

abbrev pub ingestion_runs_table : TableDef
ingestion_runs_table = record {
  name = "ingestion_runs";
  comment = "One row per pipeline run (a batch of one or more tables).";
  columns =
      column "run_id" "STRING" "" false
      ∷ column "env" "STRING" "" false
      ∷ column "status" "STRING" "RUNNING | SUCCEEDED | FAILED | PARTIAL" true
      ∷ column "trigger" "STRING" "schedule | manual | backfill | retry" true
      ∷ column "triggered_by" "STRING" "" true
      ∷ column "job_id" "STRING" "" true
      ∷ column "job_run_id" "STRING" "" true
      ∷ column "table_count" "INT" "" true
      ∷ column "started_at" "TIMESTAMP" "" true
      ∷ column "ended_at" "TIMESTAMP" "" true
      ∷ column "duration_ms" "BIGINT" "" true
      ∷ column "error_message" "STRING" "" true
      ∷ [];
  cluster_by = "run_id" ∷ [];
  properties = [];
}

abbrev pub ingestion_tasks_table : TableDef
ingestion_tasks_table = record {
  name = "ingestion_tasks";
  comment = "One row per table per run: the state machine and the metrics for that load.";
  columns =
      column "run_id" "STRING" "" false
      ∷ column "table_fqn" "STRING" "" false
      ∷ column "env" "STRING" "" false
      ∷ column "attempt" "INT" "1-based; retries append attempts, they do not overwrite" true
      ∷ column "status" "STRING" "PENDING | RUNNING | SUCCEEDED | FAILED | SKIPPED" true
      ∷ column "extraction_mode" "STRING" "" true
      ∷ column "write_mode" "STRING" "" true
      ∷ column "watermark_from" "STRING" "Lower bound actually used (after overlap)" true
      ∷ column "watermark_to" "STRING" "New high-water mark observed in this batch" true
      ∷ column "source_count" "BIGINT" "Rows counted at source for reconciliation" true
      ∷ column "rows_read" "BIGINT" "" true
      ∷ column "rows_written" "BIGINT" "" true
      ∷ column "rows_inserted" "BIGINT" "" true
      ∷ column "rows_updated" "BIGINT" "" true
      ∷ column "rows_deleted" "BIGINT" "" true
      ∷ column "bytes_written" "BIGINT" "" true
      ∷ column "config_hash" "STRING" "" true
      ∷ column "started_at" "TIMESTAMP" "" true
      ∷ column "ended_at" "TIMESTAMP" "" true
      ∷ column "duration_ms" "BIGINT" "" true
      ∷ column "error_type" "STRING" "" true
      ∷ column "error_message" "STRING" "" true
      ∷ [];
  cluster_by = "table_fqn" ∷ "run_id" ∷ [];
  properties = [];
}

abbrev pub audit_log_table : TableDef
audit_log_table = record {
  name = "audit_log";
  comment = "Immutable event stream. Append-only: rows are never updated or deleted.";
  columns =
      column "event_id" "STRING" "" false
      ∷ column "run_id" "STRING" "" true
      ∷ column "table_fqn" "STRING" "" true
      ∷ column "env" "STRING" "" true
      ∷ column "event_type" "STRING" "" false
      ∷ column "event_ts" "TIMESTAMP" "" false
      ∷ column "sequence" "INT" "Order of events within a task, for stable replay" true
      ∷ column "actor" "STRING" "Service principal or user that caused the event" true
      ∷ column "payload" "STRING" "Event-specific detail as JSON" true
      ∷ [];
  cluster_by = "run_id" ∷ "table_fqn" ∷ [];
  properties = [];
}

abbrev pub reconciliation_table : TableDef
reconciliation_table = record {
  name = "reconciliation";
  comment = "Source-vs-target counts and data-quality expectation results per run.";
  columns =
      column "run_id" "STRING" "" false
      ∷ column "table_fqn" "STRING" "" false
      ∷ column "env" "STRING" "" false
      ∷ column "check_type" "STRING" "row_count | expectation | null_key" true
      ∷ column "check_name" "STRING" "" true
      ∷ column "source_count" "BIGINT" "" true
      ∷ column "target_count" "BIGINT" "" true
      ∷ column "delta" "BIGINT" "" true
      ∷ column "status" "STRING" "PASSED | FAILED | WARNED" true
      ∷ column "details" "STRING" "" true
      ∷ column "checked_at" "TIMESTAMP" "" true
      ∷ [];
  cluster_by = "table_fqn" ∷ "run_id" ∷ [];
  properties = [];
}

abbrev pub all_tables : List TableDef
all_tables =
    config_registry_table ∷ watermarks_table ∷ ingestion_runs_table ∷ ingestion_tasks_table
    ∷ audit_log_table ∷ reconciliation_table ∷ []

unfoldable pub create_all : List TableDef → String → String → Result (List String)
unfolding create_sql
create_all [] catalog schema = ok []
create_all (t ∷ ts) catalog schema =
    and_then (create_sql t catalog schema)
      (λ s. and_then (create_all ts catalog schema) (λ ss. ok (s ∷ ss)))

unfoldable pub ddl_statements : String → String → Result (List String)
unfolding qualify create_all
ddl_statements catalog schema = and_then (qualify (catalog ∷ schema ∷ [])) (λ fqn.
    and_then (create_all all_tables catalog schema) (λ statements. ok (
      ("CREATE SCHEMA IF NOT EXISTS " <> (fqn <> " COMMENT 'Ingestion framework control plane'"))
      ∷ statements)))
