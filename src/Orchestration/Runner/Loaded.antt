-- ===== src/Orchestration/Runner/Loaded.antt =====
-- What steps 1 to 5 of _execute in orchestration/runner.py have done when they return.
use oracle_repo.Base.{ℕ, ◌≡◌, String, true}
use oracle_repo.RunSpec.{RunSpec, table_fqn}
use oracle_repo.Platform.{Platform, ok}
use oracle_repo.Engine.Checks.{ReconciliationReport, is_ok}
use oracle_repo.Engine.Batches.{
  Engine, ExtractResult, StageResult, LoadResult, ViewNames, view_names, reconcile,
}
use oracle_repo.Control.Effects.{
  Returns, Returns-bind, Returns-then, Returns-pure, Returns-if, Returns-throw, Returns-on_lake,
}
use oracle_repo.Orchestration.Lifecycle.{Batch, load_batch, reconcile_batch, require_ok, prepare}

-- What an attempt has done when its `prepare` returns a batch: the loader wrote the staged view of
-- the attempt, the reconciler made the report of that load, and the report is ok.
pub record IsCommitted {p : Platform} (engine : Engine p) (spec : RunSpec) (run_id : String)
    (attempt : ℕ) (b : Batch p) : Type 0 where
  pub stage : StageResult p
  pub before : p.Lake
  pub after : p.Lake
  pub written :
      (engine.write stage.dataframe spec
        (view_names (table_fqn spec) run_id attempt).staged
        before).0
      ≡ ok b.load
  pub reconciled :
      (reconcile engine spec b.extract.source_count stage.duplicates_removed stage.null_key_rows
        b.load.rows_written
        (view_names (table_fqn spec) run_id attempt).staged
        after).0
      ≡ ok b.report
  pub checked : is_ok b.report ≡ true

module _ {p : Platform} (engine : Engine p) (spec : RunSpec) (run_id : String) where
  abbrev Written : StageResult p → ViewNames → LoadResult → Type 0
  Written stage views load =
      (before : p.Lake) × ((engine.write stage.dataframe spec views.staged before).0 ≡ ok load)

  abbrev Reconciled :
      ExtractResult p → StageResult p → LoadResult → ViewNames → ReconciliationReport → Type 0
  Reconciled extract stage load views report =
      (after : p.Lake) × ((reconcile engine spec extract.source_count stage.duplicates_removed
          stage.null_key_rows load.rows_written views.staged after).0
        ≡ ok report)

  load_batch-Returns :
      (stage : StageResult p) (views : ViewNames)
      → Returns {p = p} (Written stage views) (load_batch p engine spec run_id stage views)
  unfolding load_batch
  load_batch-Returns stage views = Returns-then _ _ λ _.
      Returns-bind _ _ (Returns-on_lake (Written stage views) _ (λ lake a e. (lake, e)))
        (λ load h. Returns-then _ _ (λ _. Returns-pure (Written stage views) load h))

  reconcile_batch-Returns :
      (extract : ExtractResult p) (stage : StageResult p) (load : LoadResult) (views : ViewNames)
      → Returns {p = p}
          (Reconciled extract stage load views)
          (reconcile_batch p engine spec run_id extract stage load views)
  unfolding reconcile_batch
  reconcile_batch-Returns extract stage load views =
      Returns-bind _ _
        (Returns-on_lake (Reconciled extract stage load views) _ (λ lake a e. (lake, e)))
        (λ report h.
          Returns-then _ _ λ _.
            Returns-then _ _ (λ _. Returns-pure (Reconciled extract stage load views) report h))

  require_ok-Returns :
      (report : ReconciliationReport)
      → Returns {p = p} (λ _. is_ok report ≡ true) (require_ok p engine spec run_id report)
  unfolding require_ok
  require_ok-Returns report =
      Returns-if _ (is_ok report) _ _ (λ good. record { holds = λ w a e. good })
        (λ bad. Returns-then _ _ (λ _. Returns-throw _ _))

  pub prepare-Returns :
      (attempt : ℕ)
      → Returns {p = p}
          (IsCommitted engine spec run_id attempt)
          (prepare p engine spec run_id attempt)
  unfolding prepare
  prepare-Returns attempt =
      let views = view_names (table_fqn spec) run_id attempt in
      Returns-then _ _ λ _. Returns-then _ _ λ _. Returns-then _ _ λ extract. Returns-then _ _ λ _.
        Returns-then _ _ λ stage. Returns-bind _ _ (load_batch-Returns stage views) λ load h.
          Returns-bind _ _ (reconcile_batch-Returns extract stage load views) λ report k.
            Returns-bind _ _ (require_ok-Returns report) λ _ good. Returns-pure _ _ (record {
              stage = stage;
              before = h.0;
              after = k.0;
              written = h.1;
              reconciled = k.1;
              checked = good;
            })
