-- ===== src/Orchestration/Runner.antt =====
-- `TableRunner` of src/ingestion_framework/orchestration/runner.py. Its log lines are not modelled.
pub mod Effects
pub mod Loaded
pub mod Guarding
pub mod Ordering
pub mod Outcomes
pub mod Returning
use oracle_repo.Base.{
  ℕ, zero, suc, ◌+◌, ◌*◌, String, ◌==◌, Bool, true, false, ◌||◌, Option, none, some, List, [], ◌∷◌,
  ◌++◌, map, eqb, if◌then◌else◌,
}
use oracle_repo.Base.Int.{ℤ}
use oracle_repo.Duration.{parse_duration}
use oracle_repo.RunSpec.{
  RunSpec, IncrementalSpec, null, text, table_fqn, tracks_watermark, uses_scn,
  effective_watermark_column, bound_type,
}
use oracle_repo.Platform.{
  Platform, Error, duration_parse_error, reconciliation_failure, type_name, Result, ok, err,
}
use oracle_repo.Engine.Checks.{
  CheckResult, ReconciliationReport, failures, is_ok, Summary, summarize,
}
use oracle_repo.Engine.Batches.{
  Engine, ExtractResult, is_empty_batch, ViewNames, view_names, StageResult, LoadResult, reconcile,
}
use oracle_repo.Control.Status.{TaskStatus}
use oracle_repo.Control.Tables.{
  TaskMetrics, EventType, Field, absent, flag, count, word, words, AuditEvent, task_started,
  task_skipped, extract_started, extract_done, load_started, load_done, reconciliation_done,
  watermark_advanced, watermark_held, task_succeeded, task_failed, task_retrying,
}
use oracle_repo.Control.World.{
  World, Alert, Action, pure, throw, lift, try_except, read_clock, fresh_id, on_lake, dispatch,
  sleep, ◌>>=◌, ◌>>◌,
}
use oracle_repo.Control.Watermark.{WatermarkWindow}
use oracle_repo.Control.WatermarkStore
use oracle_repo.Control.Store.{
  TaskRef, no_metrics, register_config, start_task, finish_task, record_checks,
}
use oracle_repo.Control.Audit.{emit}
use oracle_repo.Orchestration.Lifecycle.{opt_count, Batch, note, prepare}

pub record TaskOutcome : Type 0 where
  pub table_fqn : String
  pub run_id : String
  pub status : TaskStatus
  pub attempt : ℕ
  pub metrics : TaskMetrics
  pub report : Option ReconciliationReport
  pub watermark_advanced : Bool
  pub error : Option Error
  pub duration_ms : Option ℤ

-- `outcome.succeeded or outcome.status is TaskStatus.SKIPPED`
abbrev pub is_done : TaskOutcome → Bool
is_done o = elim o.status [ TaskStatus.succeeded ↦ true | TaskStatus.skipped ↦ true | _ ↦ false ]

-- `getattr(error, "report", None)`
abbrev report_of : Error → Option ReconciliationReport
report_of (reconciliation_failure report) = some report
report_of _ = none

module _ (p : Platform) (engine : Engine p) where
  -- `_advance_watermark`, for a batch that is not empty
  unfoldable pub advance_mark : RunSpec → String → String → Action p Bool
  advance_mark spec run_id value = do
    let incremental = spec.extraction.incremental
    updated_at ← read_clock
    advanced ←
        WatermarkStore.advance p (table_fqn spec) spec.env (text value) run_id
          (effective_watermark_column incremental) (bound_type incremental) updated_at
    note p engine (if advanced then watermark_advanced else watermark_held) spec run_id
        (("value", word value) ∷ ("advanced", flag advanced) ∷ []) false
    pure advanced

  -- Once the extract tracks a watermark. Nothing new was observed, so there is nothing to move to;
  -- or there is.
  unfoldable pub advance_if : RunSpec → String → Option String → Action p Bool
  unfolding advance_mark
  advance_if spec run_id none =
      note p engine watermark_held spec run_id (("reason", word "no new watermark in batch") ∷ [])
        false
      >> pure false
  advance_if spec run_id (some value) = advance_mark spec run_id value

  unfoldable pub advance_watermark : RunSpec → String → ExtractResult p → Action p Bool
  unfolding advance_if
  advance_watermark spec run_id extract =
      if tracks_watermark spec.extraction
      then advance_if spec run_id extract.new_watermark
      else pure false

  -- Step 6 of `_execute`: the watermark, then the task's row, then the audit event.
  unfoldable pub commit : RunSpec → String → TaskRef → ℕ → ℕ → Batch p → Action p TaskOutcome
  unfolding advance_watermark
  commit spec run_id task attempt started_at batch = do
    advanced ← advance_watermark spec run_id batch.extract
    ended_at ← read_clock
    finish_task p task TaskStatus.succeeded batch.metrics none none (some started_at)
        (some ended_at) TaskStatus.running
    note p engine task_succeeded spec run_id
        (("rows_written", opt_count batch.load.rows_written)
          ∷ ("watermark_advanced", flag advanced)
          ∷ [])
        true
    pure (record {
      table_fqn = table_fqn spec;
      run_id = run_id;
      status = TaskStatus.succeeded;
      attempt = attempt;
      metrics = batch.metrics;
      report = some batch.report;
      watermark_advanced = advanced;
      error = none;
      duration_ms = some (p.duration_ms started_at ended_at);
    })

  -- `_execute`
  unfoldable pub execute : RunSpec → String → TaskRef → ℕ → ℕ → Action p TaskOutcome
  execute spec run_id task attempt started_at =
      prepare p engine spec run_id attempt >>= commit spec run_id task attempt started_at

  -- `_skip`
  unfoldable pub skip : RunSpec → String → ℕ → String → Action p TaskOutcome
  skip spec run_id attempt reason = do
    note p engine task_skipped spec run_id (("reason", word reason) ∷ []) true
    pure (record {
      table_fqn = table_fqn spec;
      run_id = run_id;
      status = TaskStatus.skipped;
      attempt = attempt;
      metrics = no_metrics;
      report = none;
      watermark_advanced = false;
      error = none;
      duration_ms = none;
    })

  -- `_fail`: a failure to record the failure is only logged.
  unfoldable pub fail : RunSpec → String → TaskRef → ℕ → ℕ → Error → Action p TaskOutcome
  fail spec run_id task attempt started_at error = do
    ended_at ← read_clock
    try_except
        (finish_task p task TaskStatus.failed no_metrics (some (type_name error))
          (some (p.error_text error)) (some started_at) (some ended_at) TaskStatus.running)
        (λ x. pure TaskStatus.failed)
    note p engine task_failed spec run_id
        (("error_type", word (type_name error))
          ∷ ("error", word (p.error_text error))
          ∷ ("attempt", count attempt)
          ∷ [])
        true
    pure (record {
      table_fqn = table_fqn spec;
      run_id = run_id;
      status = TaskStatus.failed;
      attempt = attempt;
      metrics = no_metrics;
      report = report_of error;
      watermark_advanced = false;
      error = some error;
      duration_ms = some (p.duration_ms started_at ended_at);
    })

  -- `run` of an enabled table, up to the `try`
  unfoldable pub open_task : RunSpec → String → ℕ → Action p (ℕ × TaskRef)
  open_task spec run_id attempt = do
    register_config p (table_fqn spec) spec.env spec.config_hash "" [] (some run_id) none
    started_at ← read_clock
    task ←
        start_task p run_id (table_fqn spec) spec.env spec.extraction.mode spec.target.write_mode
          spec.config_hash attempt none (some started_at)
    note p engine task_started spec run_id
        (("attempt", count attempt) ∷ ("mode", word spec.extraction.mode) ∷ []) false
    pure (started_at, task)

  -- `run` of an enabled table
  unfoldable pub run_enabled : RunSpec → String → ℕ → Action p TaskOutcome
  unfolding open_task execute fail
  run_enabled spec run_id attempt = open_task spec run_id attempt >>= λ opened.
      try_except (execute spec run_id opened.1 attempt opened.0)
        (fail spec run_id opened.1 attempt opened.0)

  unfoldable pub run : RunSpec → String → ℕ → Action p TaskOutcome
  unfolding run_enabled skip
  run spec run_id attempt =
      if spec.runtime.enabled
      then run_enabled spec run_id attempt
      else skip spec run_id attempt "disabled by config"

  -- `_alert_failure`
  unfoldable pub alert_about : RunSpec → String → ℕ → Option Error → Action p (Unit {0})
  alert_about spec run_id attempt none = pure tt
  alert_about spec run_id attempt (some error) = dispatch (record {
    event = "task_failed";
    table_fqn = table_fqn spec;
    env = spec.env;
    run_id = run_id;
    details = ("attempt", count attempt) ∷ ("error_type", word (type_name error)) ∷ [];
    channels = spec.alerting.on_failure;
  })

  unfoldable pub alert_failure : RunSpec → String → TaskOutcome → Action p (Unit {0})
  unfolding alert_about
  alert_failure spec run_id outcome = alert_about spec run_id outcome.attempt outcome.error

  -- What stands between a failed attempt and the next one.
  unfoldable pub back_off : RunSpec → String → ℕ → Action p (Unit {0})
  back_off spec run_id attempt = do
    let backoff = spec.runtime.retry_backoff_seconds
    note p engine task_retrying spec run_id
        (("attempt", count attempt)
          ∷ ("next_attempt", count (attempt + 1))
          ∷ ("backoff_s", count backoff)
          ∷ [])
        false
    if eqb backoff 0 then pure tt else sleep backoff

  -- The loop of `run_with_retries`, with the number of retries that are left.
  unfoldable pub attempts : ℕ → RunSpec → String → ℕ → Action p TaskOutcome
  unfolding run back_off alert_failure
  attempts zero spec run_id attempt = run spec run_id attempt >>= λ o.
      if is_done o then pure o else (alert_failure spec run_id o >> pure o)
  attempts (suc left) spec run_id attempt =
      let retry = attempts left spec run_id (attempt + 1) in
      run spec run_id attempt >>= λ o.
      if is_done o then pure o else (back_off spec run_id attempt >> retry)

  unfoldable pub run_with_retries : RunSpec → String → Action p TaskOutcome
  unfolding attempts
  run_with_retries spec run_id = attempts spec.runtime.retries spec run_id 1
