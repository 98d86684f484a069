-- ===== src/Orchestration/Runner/Effects.antt =====
-- What an attempt may do to the table of watermarks: the effect of its one `advance`.
use oracle_repo.Base.{ℕ, String, Option, none, some}
use oracle_repo.RunSpec.{RunSpec, table_fqn, bound_type}
use oracle_repo.Platform.{Platform, Error}
use oracle_repo.Engine.Checks.{ReconciliationReport}
use oracle_repo.Engine.Batches.{Engine, ExtractResult, StageResult, LoadResult, ViewNames}
use oracle_repo.Control.Effects.{Steps, steps_rules}
use oracle_repo.Control.Watermark.{WatermarkWindow}
use oracle_repo.Control.Store.{TaskRef}
use oracle_repo.Control.Marks.{
  Rows, MarkOrder, OnMarks, OnMarks-Preorder, AllowsAdvance, emit-Steps, register_config-Steps,
  start_task-Steps, finish_task-Steps, record_checks-Steps, window-Steps, advance-Steps,
}
use oracle_repo.Orchestration.Lifecycle.{
  Batch, resolve_window, extract_batch, load_batch, reconcile_batch, require_ok, prepare,
}
use oracle_repo.Orchestration.Runner.{
  TaskOutcome, advance_mark, advance_if, advance_watermark, commit, skip, fail, alert_failure,
  alert_about, back_off, open_task,
}

ruleset store_rules = (
  emit-Steps, register_config-Steps, start_task-Steps, finish_task-Steps, record_checks-Steps,
  window-Steps,
)

module _ {p : Platform} (engine : Engine p) {R : Rows → Rows → Type 0} (o : MarkOrder R)
    (spec : RunSpec) (run_id : String) where
  resolve_window-Steps : Steps {p = p} (OnMarks R) (resolve_window p engine spec)
  unfolding resolve_window
  resolve_window-Steps = search (OnMarks-Preorder o, o, steps_rules, store_rules)

  extract_batch-Steps :
      (window : WatermarkWindow)
      → Steps {p = p} (OnMarks R) (extract_batch p engine spec run_id window)
  unfolding extract_batch
  extract_batch-Steps window = search (OnMarks-Preorder o, o, steps_rules, store_rules) depth 10

  load_batch-Steps :
      (stage : StageResult p) (views : ViewNames)
      → Steps {p = p} (OnMarks R) (load_batch p engine spec run_id stage views)
  unfolding load_batch
  load_batch-Steps stage views = search (OnMarks-Preorder o, o, steps_rules, store_rules) depth 10

  reconcile_batch-Steps :
      (extract : ExtractResult p) (stage : StageResult p) (load : LoadResult) (views : ViewNames)
      → Steps {p = p} (OnMarks R) (reconcile_batch p engine spec run_id extract stage load views)
  unfolding reconcile_batch
  reconcile_batch-Steps extract stage load views =
      search (OnMarks-Preorder o, o, steps_rules, store_rules) depth 10

  require_ok-Steps :
      (report : ReconciliationReport)
      → Steps {p = p} (OnMarks R) (require_ok p engine spec run_id report)
  unfolding require_ok
  require_ok-Steps report = search (OnMarks-Preorder o, steps_rules) depth 10

  pub prepare-Steps :
      (attempt : ℕ) → Steps {p = p} (OnMarks R) (prepare p engine spec run_id attempt)
  unfolding prepare
  prepare-Steps attempt =
      search
        (
          OnMarks-Preorder o,
          steps_rules,
          resolve_window-Steps,
          extract_batch-Steps,
          load_batch-Steps,
          reconcile_batch-Steps,
          require_ok-Steps,
        )
        depth 24

  pub skip-Steps :
      (attempt : ℕ) (reason : String)
      → Steps {p = p} (OnMarks R) (skip p engine spec run_id attempt reason)
  unfolding skip
  skip-Steps attempt reason = search (OnMarks-Preorder o, o, steps_rules, store_rules) depth 10

  pub fail-Steps :
      (task : TaskRef) (attempt started_at : ℕ) (error : Error)
      → Steps {p = p} (OnMarks R) (fail p engine spec run_id task attempt started_at error)
  unfolding fail
  fail-Steps task attempt started_at error =
      search (OnMarks-Preorder o, o, steps_rules, store_rules) depth 12

  pub open_task-Steps :
      (attempt : ℕ) → Steps {p = p} (OnMarks R) (open_task p engine spec run_id attempt)
  unfolding open_task
  open_task-Steps attempt = search (OnMarks-Preorder o, o, steps_rules, store_rules) depth 12

  pub back_off-Steps :
      (attempt : ℕ) → Steps {p = p} (OnMarks R) (back_off p engine spec run_id attempt)
  unfolding back_off
  back_off-Steps attempt = search (OnMarks-Preorder o, o, steps_rules, store_rules) depth 10

  alert_about-Steps :
      (attempt : ℕ) (x : Option Error)
      → Steps {p = p} (OnMarks R) (alert_about p engine spec run_id attempt x)
  unfolding alert_about
  alert_about-Steps attempt none = search (OnMarks-Preorder o, steps_rules)
  alert_about-Steps attempt (some e) = search (OnMarks-Preorder o, steps_rules)

  pub alert_failure-Steps :
      (outcome : TaskOutcome)
      → Steps {p = p} (OnMarks R) (alert_failure p engine spec run_id outcome)
  unfolding alert_failure
  alert_failure-Steps outcome = alert_about-Steps outcome.attempt outcome.error

  -- The steps that may move the mark, given what `advance` may do to it.
  module _
      (allowed : AllowsAdvance p R
        (table_fqn spec)
        spec.env
        (bound_type spec.extraction.incremental)) where
    advance_mark-Steps :
        (value : String) → Steps {p = p} (OnMarks R) (advance_mark p engine spec run_id value)
    unfolding advance_mark
    advance_mark-Steps value =
        search (OnMarks-Preorder o, o, steps_rules, store_rules, advance-Steps, allowed) depth 10

    advance_if-Steps :
        (value : Option String) → Steps {p = p} (OnMarks R) (advance_if p engine spec run_id value)
    unfolding advance_if
    advance_if-Steps none = search (OnMarks-Preorder o, o, steps_rules, store_rules)
    advance_if-Steps (some value) = advance_mark-Steps value

    advance_watermark-Steps :
        (extract : ExtractResult p)
        → Steps {p = p} (OnMarks R) (advance_watermark p engine spec run_id extract)
    unfolding advance_watermark
    advance_watermark-Steps extract = search (OnMarks-Preorder o, steps_rules, advance_if-Steps)

    pub commit-Steps :
        (task : TaskRef) (attempt started_at : ℕ) (batch : Batch p)
        → Steps {p = p} (OnMarks R) (commit p engine spec run_id task attempt started_at batch)
    unfolding commit
    commit-Steps task attempt started_at batch =
        search (OnMarks-Preorder o, o, steps_rules, store_rules, advance_watermark-Steps) depth 14
