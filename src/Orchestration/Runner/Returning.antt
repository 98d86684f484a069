-- ===== src/Orchestration/Runner/Returning.antt =====
-- The runner keeps the errors of the lifecycle to itself.
use oracle_repo.Base.{ℕ, zero, suc, ◌+◌, ◌≡◌, String, Option, none, some}
use oracle_repo.RunSpec.{RunSpec}
use oracle_repo.Platform.{Platform, Error, ok}
use oracle_repo.Engine.Batches.{Engine}
use oracle_repo.Control.World.{World}
use oracle_repo.Control.Total.{
  Total, Total-pure, Total-if, Total-bind, total_rules, NoFault, emit-Total, register_config-Total,
  start_task-Total,
}
use oracle_repo.Control.Store.{TaskRef}
use oracle_repo.Orchestration.Runner.{
  TaskOutcome, is_done, skip, fail, run_enabled, run, alert_about, alert_failure, back_off,
  attempts, run_with_retries,
}

module _ {p : Platform} (sound : NoFault p) (engine : Engine p) (spec : RunSpec)
    (run_id : String) where
  fail-Total :
      (task : TaskRef) (attempt started_at : ℕ) (error : Error)
      → Total (fail p engine spec run_id task attempt started_at error)
  unfolding fail
  fail-Total task attempt started_at error = search (total_rules, sound, emit-Total) depth 14

  run-Total : (attempt : ℕ) → Total (run p engine spec run_id attempt)
  unfolding run run_enabled skip
  run-Total attempt =
      search (total_rules, sound, emit-Total, register_config-Total, start_task-Total, fail-Total)
        depth 16

  alert_about-Total :
      (attempt : ℕ) (e : Option Error) → Total (alert_about p engine spec run_id attempt e)
  unfolding alert_about
  alert_about-Total attempt none = search total_rules
  alert_about-Total attempt (some e) = search total_rules

  alert_failure-Total : (o : TaskOutcome) → Total (alert_failure p engine spec run_id o)
  unfolding alert_failure
  alert_failure-Total o = alert_about-Total o.attempt o.error

  back_off-Total : (attempt : ℕ) → Total (back_off p engine spec run_id attempt)
  unfolding back_off
  back_off-Total attempt = search (total_rules, sound, emit-Total) depth 12

  pub attempts-Total : (left attempt : ℕ) → Total (attempts p engine left spec run_id attempt)
  unfolding attempts
  attempts-Total zero attempt = search (total_rules, run-Total, alert_failure-Total) depth 12
  attempts-Total (suc left) attempt =
      Total-bind (run p engine spec run_id attempt) _ (run-Total attempt) λ o.
        Total-if (is_done o) _ _ (Total-pure o) (
          Total-bind (back_off p engine spec run_id attempt) _ (back_off-Total attempt)
            (λ _. attempts-Total left (attempt + 1)))

  -- As long as the SQL client raises nothing, `run_with_retries` returns an outcome, whatever the
  -- extractor, the transformer, the loader and the reconciler raise.
  pub run_with_retries-Total :
      (w : World p) → (o : TaskOutcome) × ((run_with_retries p engine spec run_id w).0 ≡ ok o)
  unfolding run_with_retries
  run_with_retries-Total w = (attempts-Total spec.runtime.retries 1).returns w
