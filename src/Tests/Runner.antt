-- ===== src/Tests/Runner.antt =====
-- The runner's theorems at concrete inputs.
use oracle_repo.Base.{◌+◌, ◌≡◌, refl, some}
use oracle_repo.Base.Text.{lower, replace_t, strip}
use oracle_repo.Engine.Batches.{reconcile}
use oracle_repo.Engine.Checks.{is_ok}
use oracle_repo.Control.WatermarkStore
use oracle_repo.Control.World.{◌>>=◌, get_log, put_log, try_except, on_lake}
use oracle_repo.Control.Store.{register_config, start_task, finish_task, record_checks}
use oracle_repo.Control.Audit.{emit}
use oracle_repo.Orchestration.Lifecycle.{prepare}
use oracle_repo.Platform.{to_timestamp}
use oracle_repo.RunSpec.{tracks_watermark, table_fqn, bound_type}
use oracle_repo.Control.Watermark.{cast_by_type}
use oracle_repo.Control.WatermarkStore.{find_mark}
use oracle_repo.Control.WatermarkStore.Monotone.{value_of, NotBack}
use oracle_repo.Orchestration.Runner.{commit, run_with_retries, TaskOutcome}
use oracle_repo.Platform.{ok}
use oracle_repo.Orchestration.Runner.Outcomes.{Settled, run_with_retries-Settled}
use oracle_repo.Orchestration.Runner.Returning.{attempts-Total, run_with_retries-Total}
use oracle_repo.Orchestration.Runner.Guarding.{Guarded, run_with_retries-Guarded}
use oracle_repo.Orchestration.Runner.Ordering.{run_with_retries-NotBack}
use oracle_repo.Tests.Sample.{
  sample_platform, sample_platform_sound, sample_platform-IsOrdered, sample_engine, sample_spec,
  sample_world,
}

run_with_retries-Guarded_example :
    Guarded sample_engine sample_spec "run-1" sample_world
      (run_with_retries sample_platform sample_engine sample_spec "run-1"
        sample_world).1.tables.watermarks
run_with_retries-Guarded_example =
    run_with_retries-Guarded sample_engine sample_spec "run-1" sample_world

-- The sample's run loads its batch and moves the mark from 2 to 5.
sample_run_advances :
    value_of (
      find_mark sample_platform
        (table_fqn sample_spec)
        "dev"
        (run_with_retries sample_platform sample_engine sample_spec "run-1"
          sample_world).1.tables.watermarks)
    ≡ some "11111"
unfolding run_with_retries find_mark table_fqn ◌>>=◌ get_log put_log emit register_config start_task
    try_except prepare finish_task WatermarkStore.window on_lake reconcile record_checks is_ok
    commit tracks_watermark WatermarkStore.advance lower bound_type replace_t strip cast_by_type
sample_run_advances = refl

sample_spec_typed : cast_by_type (bound_type sample_spec.extraction.incremental) ≡ some to_timestamp
unfolding cast_by_type bound_type lower
sample_spec_typed = refl

run_with_retries-NotBack_example :
    NotBack sample_platform to_timestamp
      (value_of
        (find_mark sample_platform (table_fqn sample_spec) "dev" sample_world.tables.watermarks))
      (value_of (
        find_mark sample_platform
          (table_fqn sample_spec)
          "dev"
          (run_with_retries sample_platform sample_engine sample_spec "run-1"
            sample_world).1.tables.watermarks))
run_with_retries-NotBack_example =
    run_with_retries-NotBack sample_platform-IsOrdered sample_engine sample_spec "run-1"
      to_timestamp sample_world sample_spec_typed

-- What the run of sales.orders returns.
sample_outcome :
    (o : TaskOutcome) × ((run_with_retries sample_platform sample_engine sample_spec "run-1"
        sample_world).0
      ≡ ok o)
unfolding run_with_retries
sample_outcome =
    (attempts-Total sample_platform_sound sample_engine sample_spec "run-1" 1 1).returns
      sample_world

run_with_retries-Settled_example :
    Settled sample_engine sample_spec "run-1" 1 (sample_spec.runtime.retries + 1) sample_outcome.0
run_with_retries-Settled_example =
    run_with_retries-Settled sample_engine sample_spec "run-1" sample_world sample_outcome.0
      sample_outcome.1

run_with_retries-Total_example :
    (o : TaskOutcome) × ((run_with_retries sample_platform sample_engine sample_spec "run-1"
        sample_world).0
      ≡ ok o)
run_with_retries-Total_example =
    run_with_retries-Total sample_platform_sound sample_engine sample_spec "run-1" sample_world
