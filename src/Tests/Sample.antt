-- ===== src/Tests/Sample.antt =====
-- A platform that is a concrete function throughout, an engine on it, and the spec of a table.
-- Instants are written as tallies, "111" for 3, and dates as tallies behind a "d".
use Prim.Native.Char.{code}
use Prim.Native.String.{count}
use oracle_repo.Base.{
  refl, ℕ, zero, suc, ◌+◌, ◌*◌, ◌/◌, String, true, false, Option, none, some, List, [], ◌∷◌, ltb,
  eqb, arith, if◌then◌else◌,
}
use oracle_repo.Base.Int.{sub_ℕ}
use oracle_repo.RunSpec.{
  null, number, RunSpec, star, listed, auto, TableIdentity, SourceSpec, ExtractionSpec, TargetSpec,
  QualitySpec,
}
use oracle_repo.Platform.{
  Platform, IsOrdered, IsWide, ok, err, external, Format, timestamp_format, seconds_format,
  date_format,
}
use oracle_repo.Engine.Batches.{Engine}
use oracle_repo.Engine.Cluster.{Cluster}
use oracle_repo.Control.Total.{NoFault}
use oracle_repo.Control.World.{World, AuditLog}
use oracle_repo.Control.Tables.{Tables, WatermarkRow}

abbrev pub tally : ℕ → String
tally zero = ""
tally (suc n) = String.◌∷◌ "1" (tally n)

abbrev pub one_more : Option ℕ → Option ℕ
one_more none = none
one_more (some n) = some (suc n)

abbrev pub read_tally : String → Option ℕ
read_tally String.[] = some 0
read_tally (String.◌∷◌ c s) =
    let rest = read_tally s in if eqb (code c) b'1' then one_more rest else none

abbrev micros_per_day : ℕ
micros_per_day = 86400000000

abbrev pub times_day : Option ℕ → Option ℕ
times_day none = none
times_day (some d) = some (d * micros_per_day)

abbrev read_dated : String → Option ℕ
read_dated String.[] = none
read_dated (String.◌∷◌ c s) = if eqb (code c) b'd' then times_day (read_tally s) else none

abbrev read : Format → String → Option ℕ
read timestamp_format s = read_tally s
read seconds_format s = none
read date_format s = read_dated s

abbrev pub write : Format → ℕ → String
write timestamp_format t = tally t
write seconds_format t = tally t
write date_format t = String.◌∷◌ "d" (tally (t / micros_per_day))

abbrev pub sample_platform : Platform
sample_platform = record {
  Decimal = String;
  decimal = λ s. some s;
  decimal_text = λ d. d;
  decimal_gt = λ a b. ltb (count b) (count a);
  strptime = read;
  strftime = write;
  date_text = λ d. tally d;
  datetime_text = λ t. tally t;
  duration_ms = λ a b. sub_ℕ b a;
  error_text = λ e. "";
  wide_digit = λ c. false;
  wide_word = λ c. false;
  expand = λ s. ok s;
  to_count = λ v. elim v [ number s ↦ read_tally s | _ ↦ none ];
  newer = λ c a b. ltb (count b) (count a);
  fault = λ n. none;
  now = λ n. n;
  new_id = λ n. tally n;
  Lake = ℕ;
  Frame = ℕ;
}

pub sample_platform-IsOrdered : IsOrdered sample_platform
sample_platform-IsOrdered = record {
  newer_irrefl = λ c a. ground arith;
  newer_trans = λ c a b d h k. ground arith;
}

pub sample_platform-IsWide : IsWide sample_platform
sample_platform-IsWide = record { digit_wide = λ c h. ground arith }

pub sample_platform_sound : NoFault sample_platform
sample_platform_sound n = refl

-- Two rows, the newest at 5.
abbrev pub sample_engine : Engine sample_platform
sample_engine = record {
  extract = λ spec window lake. (
    ok (record {
      dataframe = lake;
      lower_bound = window.lower_bound;
      upper_bound = none;
      new_watermark = some "11111";
      source_count = some 2;
      num_partitions = 1;
    }),
    lake,
  );
  stage = λ frame spec run_id batch_id ingested_at views lake. (
    ok (record { dataframe = frame; duplicates_removed = some 0; null_key_rows = some 0 }),
    lake,
  );
  write = λ frame spec view lake. (
    ok (record {
      target = "lake";
      write_mode = "append";
      rows_written = some 2;
      rows_inserted = some 2;
      rows_updated = none;
      rows_deleted = none;
      table_created = false;
    }),
    lake + 2,
  );
  count_rows = λ query lake. (ok 0, lake);
}

abbrev pub sample_table : String → List String → TableIdentity
sample_table name depends_on = record {
  domain = "sales";
  name = name;
  source_schema = "APP";
  source_object = "ORDERS";
  business_key = "ID" ∷ [];
  description = none;
  owner = none;
  depends_on = depends_on;
}

abbrev sample_source : SourceSpec
sample_source = record {
  type = "oracle";
  fetch_size = 1000;
  driver = "oracle.jdbc.OracleDriver";
  url = none;
  session_init_statement = none;
  options = [];
  secret_scope = none;
  secret_keys = [];
  custom_schema = [];
  read = record {
    num_partitions = 1;
    partition_column = none;
    lower_bound = null;
    upper_bound = null;
    bounds_strategy = "none";
  };
}

abbrev sample_extraction : ExtractionSpec
sample_extraction = record {
  mode = "incremental";
  columns = star;
  exclude_columns = [];
  filter = none;
  query_file = none;
  row_limit = none;
  incremental = record {
    strategy = "timestamp";
    watermark_column = some "UPDATED";
    watermark_type = "timestamp";
    overlap = "PT0S";
    lower_bound_default = null;
    bound_inclusive = auto;
    use_upper_bound = false;
  };
}

abbrev sample_target : TargetSpec
sample_target = record {
  catalog = "main";
  schema = "bronze";
  table_name = "orders";
  layer = "bronze";
  format = "delta";
  write_mode = "append";
  merge_keys = [];
  merge_guard = "none";
  enable_change_data_feed = false;
  partition_by = [];
  cluster_by = [];
  add_audit_columns = true;
  schema_evolution = true;
  column_case = "lower";
  table_properties = [];
}

abbrev sample_quality : QualitySpec
sample_quality = record {
  row_count_reconciliation = true;
  fail_on_schema_drift = false;
  null_check_keys = true;
  expectations = [];
}

abbrev pub spec_of : String → List String → RunSpec
spec_of name depends_on = record {
  env = "dev";
  table = sample_table name depends_on;
  source = sample_source;
  extraction = sample_extraction;
  target = sample_target;
  control = record { catalog = "main"; schema = "control" };
  quality = sample_quality;
  runtime = record { retries = 1; retry_backoff_seconds = 0; timeout_minutes = 60; enabled = true };
  alerting = record {
    on_failure = [];
    on_reconciliation_mismatch = [];
    on_freshness_breach = [];
    freshness_sla_hours = null;
  };
  schedule = record { group = "daily"; cron = none; timezone = "UTC"; job_retries = 0 };
  log_level = "INFO";
  config_hash = "c0";
}

abbrev pub sample_spec : RunSpec
sample_spec = spec_of "orders" []

-- The mark of sales.orders at 2.
abbrev pub sample_mark : WatermarkRow
sample_mark = record {
  table_fqn = "sales.orders";
  env = "dev";
  watermark_column = some "UPDATED";
  watermark_type = some "timestamp";
  watermark_value = some "11";
  previous_value = none;
  run_id = some "run-0";
  updated_at = some 0;
}

abbrev sample_tables : Tables
sample_tables = record {
  watermarks = sample_mark ∷ [];
  runs = [];
  tasks = [];
  registry = [];
  audit_log = [];
  checks = [];
}

abbrev sample_log : AuditLog
sample_log = record {
  run_id = none;
  env = some "dev";
  actor = none;
  buffer = [];
  buffer_limit = 50;
  sequence = 0;
}

abbrev pub sample_world : World sample_platform
sample_world = record {
  tables = sample_tables;
  log = sample_log;
  lake = 0;
  calls = 0;
  ticks = 0;
  ids = 0;
  alerts = [];
  slept = [];
}

-- The same table, merged by its key, with the columns of the extract listed.
abbrev pub merge_spec : RunSpec
merge_spec = record sample_spec {
  target = record sample_target { write_mode = "merge"; merge_keys = "ID" ∷ [] };
  extraction = record sample_extraction {
    columns = listed ("ID" ∷ "NAME" ∷ "SSN" ∷ []);
    exclude_columns = "ssn" ∷ [];
  };
}

-- A cluster on which every table exists and whose history cannot be read.
abbrev pub sample_cluster : Cluster sample_platform
sample_cluster = record {
  columns = λ frame. "id" ∷ "name" ∷ [];
  fields = λ frame. ("id", "BIGINT") ∷ ("name", "STRING") ∷ [];
  create_view = λ frame view lake. (ok tt, lake);
  sql = λ statement lake. (ok 0, lake + 1);
  sql_count = λ query lake. (ok 0, lake);
  sql_value = λ query lake. (ok 0, lake);
  table_exists = λ table lake. (ok true, lake);
  set_conf = λ key value lake. (ok tt, lake);
  save = λ frame mode evolved partitions table lake. (ok tt, lake + 1);
  history = λ query lake. (err (external "AnalysisException" "no history"), lake);
  read = λ options lake. (ok 2, lake);
  first_row = λ frame lake. (ok none, lake);
  secret = λ scope key lake. (ok key, lake);
  has_secrets = true;
  query_text = λ path. none;
}
