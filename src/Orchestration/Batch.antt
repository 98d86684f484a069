-- ===== src/Orchestration/Batch.antt =====
-- `BatchRunner` of src/ingestion_framework/orchestration/batch_runner.py. Its log lines are not
-- modelled. `pool` stands for the `ThreadPoolExecutor`: it runs a level's tables on so many
-- workers and gives their outcomes in the order of the tables.
pub mod Outcomes
pub mod Runs
pub mod Closing
pub mod Summary
use Prim.Native.Nat.{max}
use oracle_repo.Base.{
  ℕ, String, ◌<>◌, ◌==◌, Bool, true, false, not, ◌&&◌, ◌||◌, Option, none, some, List, [], ◌∷◌,
  ◌++◌, map, filter, length, is_empty, eqb, if◌then◌else◌,
}
use oracle_repo.Base.Text.{join}
use oracle_repo.RunSpec.{RunSpec, table_fqn}
use oracle_repo.Platform.{Platform, Error, Result, ok, err}
use oracle_repo.Engine.Batches.{Engine}
use oracle_repo.Control.Status.{TaskStatus, RunStatus, is_failed, derive_run_status}
use oracle_repo.Control.Tables.{Field, count, word, run_started, run_finished, task_skipped}
use oracle_repo.Control.World.{Action, pure, throw, lift, try_except, ◌>>=◌, ◌>>◌}
use oracle_repo.Control.Store.{RunContext, no_metrics, start_run, finish_run}
use oracle_repo.Control.Audit.{bind_context, emit}
use oracle_repo.Orchestration.Order.{order_tables, blocked_by}
use oracle_repo.Orchestration.Runner.{TaskOutcome, run_with_retries}

pub record BatchResult : Type 0 where
  pub run_id : String
  pub env : String
  pub status : RunStatus
  pub outcomes : List TaskOutcome
  pub skipped_for_dependencies : List (String × String)

-- What the loop over the levels changes: two fields of the result, and the set `failed`.
pub record Progress : Type 0 where
  pub outcomes : List TaskOutcome
  pub skipped_for_dependencies : List (String × String)
  pub failed : List String

abbrev pub no_progress : Progress
no_progress = record { outcomes = []; skipped_for_dependencies = []; failed = [] }

abbrev pub is_succeeded : TaskStatus → Bool
is_succeeded TaskStatus.succeeded = true
is_succeeded _ = false

abbrev pub is_skipped : TaskStatus → Bool
is_skipped TaskStatus.skipped = true
is_skipped _ = false

-- `self.status.value`
abbrev status_value : RunStatus → String
status_value RunStatus.running = "RUNNING"
status_value RunStatus.succeeded = "SUCCEEDED"
status_value RunStatus.failed = "FAILED"
status_value RunStatus.partial = "PARTIAL"

abbrev pub with_status : (TaskStatus → Bool) → List TaskOutcome → List TaskOutcome
with_status test outcomes = filter (λ o. test o.status) outcomes

-- `BatchResult.succeeded`, `BatchResult.failed` and `BatchResult.summary`
unfoldable pub succeeded_outcomes : BatchResult → List TaskOutcome
succeeded_outcomes r = with_status is_succeeded r.outcomes

unfoldable pub failed_outcomes : BatchResult → List TaskOutcome
failed_outcomes r = with_status is_failed r.outcomes

unfoldable pub summary : BatchResult → List (String × Field)
unfolding succeeded_outcomes failed_outcomes
summary r =
    ("run_id", word r.run_id)
    ∷ ("status", word (status_value r.status))
    ∷ ("tables", count (length r.outcomes))
    ∷ ("succeeded", count (length (succeeded_outcomes r)))
    ∷ ("failed", count (length (failed_outcomes r)))
    ∷ ("skipped", count (length (with_status is_skipped r.outcomes)))
    ∷ []

-- `_partition`: the tables to run, and those that are blocked with what blocks them.
unfoldable pub partition :
    Bool → List RunSpec → List String → List RunSpec × List (RunSpec × List String)
unfolding blocked_by
partition false level failed = (level, [])
partition true [] failed = ([], [])
partition true (spec ∷ level) failed =
    let (runnable, blocked) = partition true level failed in
    let blockers = blocked_by spec failed in
    if is_empty blockers then (spec ∷ runnable, blocked) else (runnable, (spec, blockers) ∷ blocked)

-- `result.outcomes.extend(outcomes)` and `failed.update(…)`
unfoldable pub after_level : Progress → List TaskOutcome → Progress
after_level done outcomes = record done {
  outcomes = done.outcomes ++ outcomes;
  failed = map (λ o. o.table_fqn) (with_status is_failed outcomes) ++ done.failed;
}

-- `result.skipped_for_dependencies[name] = reason`; a dict keeps one entry for a name.
abbrev pub noted : String → String → Progress → Progress
noted name reason done = record done {
  skipped_for_dependencies =
      (name, reason) ∷ filter (λ e. not (e.0 == name)) done.skipped_for_dependencies;
}

abbrev pub after_skip : TaskOutcome → Progress → Progress
after_skip o done = record done {
  outcomes = done.outcomes ++ o ∷ [];
  failed = o.table_fqn ∷ done.failed;
}

-- The loop's state where it stopped, and the exception that stopped it.
abbrev pub Stopped : Type 0
Stopped = Progress × Option Error

module _ {p : Platform} where
  -- Run an action in the loop's `try`, and go on with its value.
  unfoldable pub guarded :
      {A : Type 0} → Progress → Action p A → (A → Action p Stopped) → Action p Stopped
  guarded done body next w = elim (body w).0 [
    | ok a ↦ next a (body w).1
    | err e ↦ (ok (done, some e), (body w).1)
  ]

  -- An attempt whose exception is only logged.
  unfoldable pub ignoring : {A : Type 0} → Action p A → Action p (Unit {0})
  ignoring body = try_except (body >> pure tt) (λ e. pure tt)

module _ (p : Platform) (engine : Engine p) (max_workers : ℕ) (skip_dependents : Bool)
    (pool : ℕ → (RunSpec → Action p TaskOutcome) → List RunSpec → Action p (List TaskOutcome)) where
  -- `_skip_for_dependency`
  unfoldable pub skip_for_dependency : RunSpec → String → String → Action p TaskOutcome
  skip_for_dependency spec run_id reason = do
    emit p task_skipped (some (table_fqn spec)) (("reason", word reason) ∷ []) (some run_id) false
    pure (record {
      table_fqn = table_fqn spec;
      run_id = run_id;
      status = TaskStatus.skipped;
      attempt = 1;
      metrics = no_metrics;
      report = none;
      watermark_advanced = false;
      error = none;
      duration_ms = none;
    })

  -- One table after another; an exception of one leaves the rest.
  unfoldable pub run_each : List RunSpec → String → Action p (List TaskOutcome)
  run_each [] run_id = pure []
  run_each (spec ∷ specs) run_id =
      let rest = run_each specs run_id in
      run_with_retries p engine spec run_id >>= λ o. rest >>= λ os. pure (o ∷ os)

  -- `_run_level`
  unfoldable pub run_level : List RunSpec → String → Action p (List TaskOutcome)
  unfolding run_each
  run_level specs run_id =
      if eqb (max 1 max_workers) 1 || eqb (length specs) 1
      then run_each specs run_id
      else pool (max 1 max_workers) (λ spec. run_with_retries p engine spec run_id) specs

  -- The blocked tables of a level, in their order, and then `next`.
  unfoldable pub skip_blocked :
      List (RunSpec × List String)
      → String
      → Progress
      → (Progress → Action p Stopped)
      → Action p Stopped
  unfolding guarded skip_for_dependency
  skip_blocked [] run_id done next = next done
  skip_blocked ((spec, blockers) ∷ blocked) run_id done next =
      let reason = "dependency failed: " <> join ", " blockers in
      let done' = noted (table_fqn spec) reason done in
      guarded done' (skip_for_dependency spec run_id reason)
        (λ o. skip_blocked blocked run_id (after_skip o done') next)

  -- The tables of a level that may run, if there is one, and then `next`.
  unfoldable pub run_runnable :
      List RunSpec → String → Progress → (Progress → Action p Stopped) → Action p Stopped
  unfolding guarded run_level after_level
  run_runnable [] run_id done next = next done
  run_runnable (spec ∷ specs) run_id done next =
      guarded done (run_level (spec ∷ specs) run_id) (λ outcomes. next (after_level done outcomes))

  -- The loop over the levels.
  unfoldable pub run_levels : List (List RunSpec) → String → Progress → Action p Stopped
  unfolding partition skip_blocked run_runnable
  run_levels [] run_id done = pure (done, none)
  run_levels (level ∷ levels) run_id done =
      skip_blocked (partition skip_dependents level done.failed).1 run_id done λ done'.
        run_runnable (partition skip_dependents level done.failed).0 run_id done'
          λ done''. run_levels levels run_id done''

  -- The body of the `try`.
  unfoldable pub batch_body :
      List RunSpec → List (List RunSpec) → String → String → Action p Stopped
  unfolding guarded run_levels
  batch_body specs levels run_id trigger =
      guarded no_progress
        (emit p run_started none
          (("tables", count (length specs))
            ∷ ("levels", count (length levels))
            ∷ ("trigger", word trigger)
            ∷ [])
          (some run_id) false)
        (λ event. run_levels levels run_id no_progress)

  -- `FAILED` after an exception, else the roll-up of the outcomes.
  unfoldable pub result_of : String → String → Stopped → BatchResult
  unfolding derive_run_status
  result_of run_id env (done, stopped) = record {
    run_id = run_id;
    env = env;
    status = elim stopped [
      | none ↦ derive_run_status (map (λ o. o.status) done.outcomes)
      | some e ↦ RunStatus.failed
    ];
    outcomes = done.outcomes;
    skipped_for_dependencies = done.skipped_for_dependencies;
  }

  -- The `finally` block: both attempts, whatever happens to them.
  unfoldable pub close_run : RunContext → BatchResult → Action p (Unit {0})
  unfolding ignoring summary
  close_run run result =
      ignoring (finish_run p run (some result.status) none none)
      >> ignoring (emit p run_finished none (summary result) (some result.run_id) true)

  abbrev raise_or : BatchResult → Option Error → Action p BatchResult
  raise_or result none = pure result
  raise_or result (some e) = throw e

  -- `BatchRunner.run`
  unfoldable pub run_batch :
      List RunSpec
      → String
      → String
      → String
      → Option String
      → Option String
      → Option String
      → Action p BatchResult
  unfolding batch_body result_of close_run
  run_batch specs run_id env trigger triggered_by job_id job_run_id = do
    levels ← lift (order_tables specs)
    run ← start_run p run_id env trigger triggered_by (length specs) job_id job_run_id none
    bind_context p (some run_id) (some env) none
    stopped ← batch_body specs levels run_id trigger
    close_run run (result_of run_id env stopped)
    raise_or (result_of run_id env stopped) stopped.1
