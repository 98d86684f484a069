-- ===== src/RunSpec.antt =====
-- src/ingestion_framework/engine/run_spec.py: the typed view of one table's effective config.
-- A value of type `Any` is a `Value`: of a number only its `str()` is ever used.
use oracle_repo.Base.{
  ℕ, String, ◌<>◌, Bool, true, false, ◌&&◌, Option, none, some, List, [], ◌==◌, not, ltb,
  if◌then◌else◌,
}
use oracle_repo.Base.Text.{is_blank}
use oracle_repo.Base.Dict.{get}

pub data Value : Type 0 where
  null : Value
  bool : Bool → Value
  number : String → Value
  text : String → Value
  date : ℕ → Value
  datetime : ℕ → Value

pub record TableIdentity : Type 0 where
  pub domain : String
  pub name : String
  pub source_schema : String
  pub source_object : String
  pub business_key : List String
  pub description : Option String
  pub owner : Option String
  pub depends_on : List String

-- `TableIdentity.fqn` and `TableIdentity.source_fqn`
unfoldable pub fqn : TableIdentity → String
fqn t = t.domain <> ("." <> t.name)

unfoldable pub source_fqn : TableIdentity → String
source_fqn t = t.source_schema <> ("." <> t.source_object)

-- `bool(x)` of an optional text
abbrev pub is_set : Option String → Bool
is_set none = false
is_set (some s) = not (is_blank s)

pub record ReadSpec : Type 0 where
  pub num_partitions : ℕ
  pub partition_column : Option String
  pub lower_bound : Value
  pub upper_bound : Value
  pub bounds_strategy : String

unfoldable pub is_parallel : ReadSpec → Bool
is_parallel r = ltb 1 r.num_partitions && is_set r.partition_column

pub record SourceSpec : Type 0 where
  pub type : String
  pub fetch_size : ℕ
  pub driver : String
  pub url : Option String
  pub session_init_statement : Option String
  pub options : List (String × Value)
  pub secret_scope : Option String
  pub secret_keys : List (String × String)
  pub custom_schema : List (String × String)
  pub read : ReadSpec

-- `secret_keys.get(name, name)`, for `username_key` and `password_key`
unfoldable pub secret_key : String → SourceSpec → String
unfolding get
secret_key name source = elim (get name source.secret_keys) [ none ↦ name | some key ↦ key ]

-- "auto", True or False
pub data BoundInclusive : Type 0 where
  auto : BoundInclusive
  fixed : Bool → BoundInclusive

pub record IncrementalSpec : Type 0 where
  pub strategy : String
  pub watermark_column : Option String
  pub watermark_type : String
  pub overlap : String
  pub lower_bound_default : Value
  pub bound_inclusive : BoundInclusive
  pub use_upper_bound : Bool

unfoldable pub uses_scn : IncrementalSpec → Bool
uses_scn i = i.strategy == "scn"

-- The column the incremental predicate compares against.
unfoldable pub effective_watermark_column : IncrementalSpec → Option String
unfolding uses_scn
effective_watermark_column i = if uses_scn i then some "ORA_ROWSCN" else i.watermark_column

-- `"number" if incremental.uses_scn else incremental.watermark_type`, as the callers write it.
unfoldable pub bound_type : IncrementalSpec → String
unfolding uses_scn
bound_type i = if uses_scn i then "number" else i.watermark_type

-- "*" or a tuple of names
pub data Columns : Type 0 where
  star : Columns
  listed : List String → Columns

-- `selects_all_columns` is the test for `star`.
unfoldable pub column_list : Columns → List String
column_list star = []
column_list (listed names) = names

pub record ExtractionSpec : Type 0 where
  pub mode : String
  pub columns : Columns
  pub exclude_columns : List String
  pub filter : Option String
  pub query_file : Option String
  pub row_limit : Option ℕ
  pub incremental : IncrementalSpec

unfoldable pub is_incremental : ExtractionSpec → Bool
is_incremental x = x.mode == "incremental"

-- Whether this extract carries watermark bounds at all.
unfoldable pub tracks_watermark : ExtractionSpec → Bool
unfolding is_incremental effective_watermark_column
tracks_watermark x =
    if is_incremental x
    then true
    else x.mode == "query" && is_set (effective_watermark_column x.incremental)

pub record TargetSpec : Type 0 where
  pub catalog : String
  pub schema : String
  pub table_name : String
  pub layer : String
  pub format : String
  pub write_mode : String
  pub merge_keys : List String
  pub merge_guard : String
  pub enable_change_data_feed : Bool
  pub partition_by : List String
  pub cluster_by : List String
  pub add_audit_columns : Bool
  pub schema_evolution : Bool
  pub column_case : String
  pub table_properties : List (String × String)

unfoldable pub target_fqn : TargetSpec → String
target_fqn t = t.catalog <> ("." <> (t.schema <> ("." <> t.table_name)))

unfoldable pub is_merge : TargetSpec → Bool
is_merge t = t.write_mode == "merge"

pub record ControlSpec : Type 0 where
  pub catalog : String
  pub schema : String

pub record Expectation : Type 0 where
  pub column : String
  pub rule : String
  pub values : List Value
  pub value : Value
  pub pattern : Option String
  pub action : String

pub record QualitySpec : Type 0 where
  pub row_count_reconciliation : Bool
  pub fail_on_schema_drift : Bool
  pub null_check_keys : Bool
  pub expectations : List Expectation

pub record RuntimeSpec : Type 0 where
  pub retries : ℕ
  pub retry_backoff_seconds : ℕ
  pub timeout_minutes : ℕ
  pub enabled : Bool

pub record AlertingSpec : Type 0 where
  pub on_failure : List String
  pub on_reconciliation_mismatch : List String
  pub on_freshness_breach : List String
  pub freshness_sla_hours : Value

pub record ScheduleSpec : Type 0 where
  pub group : String
  pub cron : Option String
  pub timezone : String
  pub job_retries : ℕ

pub record RunSpec : Type 0 where
  pub env : String
  pub table : TableIdentity
  pub source : SourceSpec
  pub extraction : ExtractionSpec
  pub target : TargetSpec
  pub control : ControlSpec
  pub quality : QualitySpec
  pub runtime : RuntimeSpec
  pub alerting : AlertingSpec
  pub schedule : ScheduleSpec
  pub log_level : String
  pub config_hash : String

unfoldable pub table_fqn : RunSpec → String
unfolding fqn
table_fqn s = fqn s.table
