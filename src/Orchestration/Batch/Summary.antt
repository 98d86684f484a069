-- ===== src/Orchestration/Batch/Summary.antt =====
-- The result that `BatchRunner.run` returns.
use oracle_repo.Base.{
  ℕ, ◌+◌, ◌≡◌, String, Bool, true, Option, none, some, List, [], ◌∷◌, length, All, arith,
}
use oracle_repo.RunSpec.{RunSpec}
use oracle_repo.Platform.{Platform, Error, ok}
use oracle_repo.Engine.Batches.{Engine}
use oracle_repo.Control.Status.{is_failed}
use oracle_repo.Control.World.{World}
use oracle_repo.Control.Effects.{Returns, Returns-bind, Returns-then, Returns-pure, Returns-throw}
use oracle_repo.Orchestration.Runner.{TaskOutcome}
use oracle_repo.Orchestration.Batch.{
  BatchResult, Stopped, with_status, is_succeeded, is_skipped, succeeded_outcomes, failed_outcomes,
  result_of, raise_or, run_batch,
}
use oracle_repo.Orchestration.Batch.Outcomes.{
  Pool, PoolReturns, Finished, is_closed, batch_body-Returns, result_of-closed,
}

-- Every finished outcome is counted once.
length-with_status :
    (os : List TaskOutcome)
    → All Finished os
    → length (with_status is_succeeded os)
        + length (with_status is_failed os)
        + length (with_status is_skipped os)
      ≡ length os
length-with_status [] h = omega arith
length-with_status (o ∷ os) h = ground (arith, h.0, length-with_status os h.1)

-- The counts of the summary add up, and the run is over.
pub record Complete (r : BatchResult) : Type 0 where
  pub counted :
      length (succeeded_outcomes r)
        + length (failed_outcomes r)
        + length (with_status is_skipped r.outcomes)
      ≡ length r.outcomes
  pub closed : is_closed r.status ≡ true

module _ {p : Platform} (engine : Engine p) (max_workers : ℕ) (skip_dependents : Bool)
    (pool : Pool p) (pool_returns : PoolReturns pool) where
  result_of-Complete :
      (run_id env : String) (stopped : Stopped)
      → All Finished stopped.0.outcomes
      → Complete (result_of p engine max_workers skip_dependents pool run_id env stopped)
  unfolding succeeded_outcomes failed_outcomes result_of
  result_of-Complete run_id env (done, stopped) h = record {
    counted = length-with_status done.outcomes h;
    closed =
        result_of-closed p engine max_workers skip_dependents pool pool_returns run_id env
          (done, stopped) h;
  }

  raise_or-Returns :
      (result : BatchResult) (e : Option Error)
      → Complete result
      → Returns {p = p} Complete (raise_or p engine max_workers skip_dependents pool result e)
  raise_or-Returns result none h = Returns-pure _ _ h
  raise_or-Returns result (some e) h = Returns-throw _ e

  -- In a result that `BatchRunner.run` returns, the tables that succeeded, failed and were skipped
  -- add up to all the outcomes, and the status is not RUNNING. Asked of the pool is only that its
  -- outcomes are those that the calls returned.
  pub run_batch-Complete :
      (specs : List RunSpec) (run_id env trigger : String)
      (triggered_by job_id job_run_id : Option String) (w : World p) (r : BatchResult)
      → (run_batch p engine max_workers skip_dependents pool specs run_id env trigger triggered_by
          job_id job_run_id w).0
        ≡ ok r
      → Complete r
  unfolding run_batch
  run_batch-Complete specs run_id env trigger triggered_by job_id job_run_id w r h =
      (Returns-then _ _ λ levels. Returns-then _ _ λ run. Returns-then _ _ λ _.
          Returns-bind _ _
            (batch_body-Returns p engine max_workers skip_dependents pool pool_returns specs levels
              run_id trigger)
            λ stopped finished. Returns-then _ _ λ _.
              raise_or-Returns
                (result_of p engine max_workers skip_dependents pool run_id env stopped) stopped.1
                (result_of-Complete run_id env stopped finished)).holds
        w r h
