-- ===== src/Control/Tables.antt =====
-- The rows of the control plane (src/ingestion_framework/control/schema.py) and the audit events
-- (control/audit.py). A nullable column is an `Option`, a TIMESTAMP an instant.
use oracle_repo.Base.{ℕ, String, Bool, Option, List}
use oracle_repo.Base.Int.{ℤ}
use oracle_repo.Engine.Checks.{CheckResult}
use oracle_repo.Control.Status.{TaskStatus, RunStatus}

pub record WatermarkRow : Type 0 where
  pub table_fqn : String
  pub env : String
  pub watermark_column : Option String
  pub watermark_type : Option String
  pub watermark_value : Option String
  pub previous_value : Option String
  pub run_id : Option String
  pub updated_at : Option ℕ

pub record RunRow : Type 0 where
  pub run_id : String
  pub env : String
  pub status : RunStatus
  pub trigger : String
  pub triggered_by : Option String
  pub job_id : Option String
  pub job_run_id : Option String
  pub table_count : ℕ
  pub started_at : ℕ
  pub ended_at : Option ℕ
  pub duration_ms : Option ℤ
  pub error_message : Option String

-- `TaskMetrics`
pub record TaskMetrics : Type 0 where
  pub source_count : Option ℕ
  pub rows_read : Option ℕ
  pub rows_written : Option ℕ
  pub rows_inserted : Option ℕ
  pub rows_updated : Option ℕ
  pub rows_deleted : Option ℕ
  pub bytes_written : Option ℕ
  pub watermark_from : Option String
  pub watermark_to : Option String

pub record TaskRow : Type 0 where
  pub run_id : String
  pub table_fqn : String
  pub env : String
  pub attempt : ℕ
  pub status : TaskStatus
  pub extraction_mode : String
  pub write_mode : String
  pub metrics : TaskMetrics
  pub config_hash : String
  pub started_at : ℕ
  pub ended_at : Option ℕ
  pub duration_ms : Option ℤ
  pub error_type : Option String
  pub error_message : Option String

pub record ConfigRow : Type 0 where
  pub config_hash : String
  pub table_fqn : String
  pub env : String
  pub resolved_json : String
  pub config_sources : List String
  pub first_seen_at : ℕ
  pub last_seen_at : ℕ
  pub last_run_id : Option String

pub record CheckRow : Type 0 where
  pub run_id : String
  pub table_fqn : String
  pub env : String
  pub result : CheckResult
  pub checked_at : ℕ

pub data EventType : Type 0 where
  run_started run_finished task_started task_skipped config_resolved : EventType
  extract_started extract_done load_started load_done reconciliation_done : EventType
  watermark_advanced watermark_held watermark_forced schema_evolved : EventType
  task_succeeded task_failed task_retrying : EventType

-- A value in an event's payload, before it is written as JSON.
pub data Field : Type 0 where
  absent : Field
  flag : Bool → Field
  count : ℕ → Field
  word : String → Field
  words : List String → Field

pub record AuditEvent : Type 0 where
  pub event_id : String
  pub event_type : EventType
  pub event_ts : ℕ
  pub run_id : Option String
  pub table_fqn : Option String
  pub env : Option String
  pub sequence : ℕ
  pub actor : Option String
  pub payload : List (String × Field)

-- The six tables.
pub record Tables : Type 0 where
  pub watermarks : List WatermarkRow
  pub runs : List RunRow
  pub tasks : List TaskRow
  pub registry : List ConfigRow
  pub audit_log : List AuditEvent
  pub checks : List CheckRow
