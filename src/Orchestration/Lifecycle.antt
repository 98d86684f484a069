-- ===== src/Orchestration/Lifecycle.antt =====
-- The lifecycle of one attempt, up to what must hold before the watermark moves: steps 1 to 5 of
-- `_execute` of src/ingestion_framework/orchestration/runner.py.
use oracle_repo.Base.{
  ℕ, ◌*◌, String, Bool, false, Option, none, some, List, [], ◌∷◌, map, if◌then◌else◌,
}
use oracle_repo.Duration.{parse_duration}
use oracle_repo.RunSpec.{RunSpec, IncrementalSpec, table_fqn}
use oracle_repo.Platform.{Platform, duration_parse_error, reconciliation_failure, Result, ok, err}
use oracle_repo.Engine.Checks.{ReconciliationReport, failures, is_ok, Summary, summarize}
use oracle_repo.Engine.Batches.{
  Engine, ExtractResult, ViewNames, view_names, StageResult, LoadResult, reconcile,
}
use oracle_repo.Control.Tables.{
  TaskMetrics, EventType, Field, absent, flag, count, word, words, AuditEvent, extract_started,
  extract_done, load_started, load_done, reconciliation_done,
}
use oracle_repo.Control.World.{
  Action, pure, throw, lift, read_clock, fresh_id, on_lake, dispatch, ◌>>=◌, ◌>>◌,
}
use oracle_repo.Control.Watermark.{WatermarkWindow}
use oracle_repo.Control.WatermarkStore
use oracle_repo.Control.Store.{record_checks}
use oracle_repo.Control.Audit.{emit}

-- `overlap_delta`, in microseconds
unfoldable pub overlap_delta : IncrementalSpec → Result ℕ
unfolding parse_duration
overlap_delta i = elim (parse_duration i.overlap) [
  | none ↦ err duration_parse_error
  | some seconds ↦ ok (seconds * 1000000)
]

abbrev pub opt_count : Option ℕ → Field
opt_count none = absent
opt_count (some n) = count n

abbrev pub opt_word : Option String → Field
opt_word none = absent
opt_word (some s) = word s

abbrev summary_payload : Summary → List (String × Field)
summary_payload s =
    ("checks", count s.checks)
    ∷ ("failed", count s.failed)
    ∷ ("warned", count s.warned)
    ∷ ("failed_checks", words s.failed_checks)
    ∷ []

-- What the first five steps of the lifecycle leave for the last one.
pub record Batch (p : Platform) : Type 0 where
  pub extract : ExtractResult p
  pub load : LoadResult
  pub report : ReconciliationReport
  pub metrics : TaskMetrics

module _ (p : Platform) (engine : Engine p) where
  abbrev pub note :
      EventType → RunSpec → String → List (String × Field) → Bool → Action p AuditEvent
  note event spec run_id payload flushes =
      emit p event (some (table_fqn spec)) payload (some run_id) flushes

  unfoldable pub metrics_of : ExtractResult p → LoadResult → TaskMetrics
  metrics_of extract load = record {
    source_count = extract.source_count;
    rows_read = extract.source_count;
    rows_written = load.rows_written;
    rows_inserted = load.rows_inserted;
    rows_updated = load.rows_updated;
    rows_deleted = load.rows_deleted;
    bytes_written = none;
    watermark_from = extract.lower_bound;
    watermark_to = extract.new_watermark;
  }

  -- Step 1. The type of the window is `watermark_type`, for an SCN strategy too.
  unfoldable pub resolve_window : RunSpec → Action p WatermarkWindow
  unfolding overlap_delta
  resolve_window spec = do
    let incremental = spec.extraction.incremental
    overlap ← lift (overlap_delta incremental)
    WatermarkStore.window p (table_fqn spec) spec.env incremental.watermark_type overlap
        incremental.lower_bound_default

  -- Step 2.
  unfoldable pub extract_batch : RunSpec → String → WatermarkWindow → Action p (ExtractResult p)
  extract_batch spec run_id window = do
    note extract_started spec run_id [] false
    extract ← on_lake (engine.extract spec window)
    note extract_done spec run_id
        (("source_count", opt_count extract.source_count)
          ∷ ("lower_bound", opt_word extract.lower_bound)
          ∷ ("upper_bound", opt_word extract.upper_bound)
          ∷ ("partitions", count extract.num_partitions)
          ∷ [])
        false
    pure extract

  -- Step 4.
  unfoldable pub load_batch : RunSpec → String → StageResult p → ViewNames → Action p LoadResult
  load_batch spec run_id stage views = do
    note load_started spec run_id [] false
    load ← on_lake (engine.write stage.dataframe spec views.staged)
    note load_done spec run_id
        (("rows_written", opt_count load.rows_written)
          ∷ ("rows_inserted", opt_count load.rows_inserted)
          ∷ ("rows_updated", opt_count load.rows_updated)
          ∷ ("table_created", flag load.table_created)
          ∷ [])
        false
    pure load

  -- Step 5, up to the test of the report.
  unfoldable pub reconcile_batch :
      RunSpec
      → String
      → ExtractResult p
      → StageResult p
      → LoadResult
      → ViewNames
      → Action p ReconciliationReport
  reconcile_batch spec run_id extract stage load views = do
    report ← on_lake (
        reconcile engine spec extract.source_count stage.duplicates_removed stage.null_key_rows
          load.rows_written views.staged)
    record_checks p run_id (table_fqn spec) spec.env report none
    note reconciliation_done spec run_id (summary_payload (summarize report)) false
    pure report

  -- A report that is not ok raises, so that the watermark holds.
  unfoldable pub require_ok : RunSpec → String → ReconciliationReport → Action p (Unit {0})
  require_ok spec run_id report =
      if is_ok report
      then pure tt
      else dispatch (record {
        event = "reconciliation_mismatch";
        table_fqn = table_fqn spec;
        env = spec.env;
        run_id = run_id;
        details = ("failed_checks", words (map (λ c. c.check_name) (failures report))) ∷ [];
        channels = spec.alerting.on_reconciliation_mismatch;
      })
        >> throw (reconciliation_failure report)

  -- Steps 1 to 5 of `_execute`: all before the watermark may move.
  unfoldable pub prepare : RunSpec → String → ℕ → Action p (Batch p)
  unfolding resolve_window extract_batch load_batch reconcile_batch require_ok
  prepare spec run_id attempt = do
    batch_id ← fresh_id
    let views = view_names (table_fqn spec) run_id attempt
    window ← resolve_window spec
    extract ← extract_batch spec run_id window
    ingested_at ← read_clock
    stage ← on_lake (engine.stage extract.dataframe spec run_id batch_id ingested_at views)
    load ← load_batch spec run_id stage views
    report ← reconcile_batch spec run_id extract stage load views
    require_ok spec run_id report
    pure (record {
      extract = extract;
      load = load;
      report = report;
      metrics = metrics_of extract load;
    })
