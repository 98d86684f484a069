-- ===== src/Tests/Batch.antt =====
-- The theorems on the order of a batch and on its run at concrete inputs.
use oracle_repo.Engine.Batches.{reconcile}
use oracle_repo.Engine.Checks.{is_ok}
use oracle_repo.RunSpec.{tracks_watermark, bound_type}
use oracle_repo.Base.Text.{lower, replace_t, strip}
use oracle_repo.Control.Watermark.{cast_by_type}
use oracle_repo.Control.WatermarkStore
use oracle_repo.Control.World.{on_lake}
use oracle_repo.Control.Store.{record_checks}
use oracle_repo.Orchestration.Runner.{commit}
use oracle_repo.Base.{◌≡◌, refl, true, none, List, [], ◌∷◌, All}
use oracle_repo.RunSpec.{RunSpec, table_fqn}
use oracle_repo.Platform.{Result, ok, err, dependency_error}
use oracle_repo.Control.World.{World}
use oracle_repo.Control.World.{◌>>=◌, get_log, put_log, try_except, dispatch}
use oracle_repo.Control.Store.{start_run, register_config, start_task, finish_task, finish_run}
use oracle_repo.Control.Audit.{bind_context, emit}
use oracle_repo.Orchestration.Lifecycle.{prepare}
use oracle_repo.Orchestration.Order.{is_named, by_fqn, order_tables}
use oracle_repo.Orchestration.Order.Laws.{times, flat}
use oracle_repo.Orchestration.Order.Levels.{Ordered, order_tables-times, order_tables-Ordered}
use oracle_repo.Orchestration.Order.Cycles.{Stuck, order_tables-Stuck}
use oracle_repo.Orchestration.Runner.{run_with_retries, TaskOutcome}
use oracle_repo.Orchestration.Batch.{run_batch, BatchResult}
use oracle_repo.Orchestration.Batch.Summary.{Complete, run_batch-Complete}
use oracle_repo.Control.Status.{RunStatus}
use oracle_repo.Orchestration.Batch.Outcomes.{Pool, PoolReturns}
use oracle_repo.Orchestration.Batch.Closing.{all_closed, run_batch-closed}
use oracle_repo.Tests.Sample.{
  sample_platform, sample_platform_sound, sample_engine, sample_world, spec_of,
}

-- sales.items depends on sales.orders, and on a table outside the batch.
abbrev items : RunSpec
items = spec_of "items" ("sales.orders" ∷ "hr.people" ∷ [])

abbrev orders : RunSpec
orders = spec_of "orders" []

abbrev two_levels : List (List RunSpec)
two_levels = (orders ∷ []) ∷ (items ∷ []) ∷ []

order_tables-two : order_tables (items ∷ orders ∷ []) ≡ ok two_levels
unfolding order_tables table_fqn
order_tables-two = refl

order_tables-times_example : times "sales.orders" (flat two_levels) ≡ 1
unfolding is_named table_fqn
order_tables-times_example =
    order_tables-times (items ∷ orders ∷ []) two_levels "sales.orders" order_tables-two

order_tables-Ordered_example : Ordered (items ∷ orders ∷ []) [] two_levels
order_tables-Ordered_example =
    order_tables-Ordered (items ∷ orders ∷ []) two_levels order_tables-two

-- Two tables that wait for one another.
abbrev waiting : List RunSpec
waiting = spec_of "a" ("sales.b" ∷ []) ∷ spec_of "b" ("sales.a" ∷ []) ∷ []

order_tables-waiting : order_tables waiting ≡ err dependency_error
unfolding order_tables table_fqn
order_tables-waiting = refl

order_tables-Stuck_example : Stuck (by_fqn waiting)
order_tables-Stuck_example = order_tables-Stuck waiting dependency_error order_tables-waiting

-- A pool that has run nothing.
abbrev idle_pool : Pool sample_platform
idle_pool n f specs w = (ok [], w)

idle_pool_returns : PoolReturns idle_pool
idle_pool_returns n f specs w os h = no_outcomes os h
  where
    no_outcomes :
        (os : List TaskOutcome)
        → ok [] ≡ ok os
        → All (λ o. (spec : RunSpec) × (v : World sample_platform) × ((f spec v).0 ≡ ok o)) os
    no_outcomes [] h = tt
    no_outcomes (o ∷ os) h = cc

run_batch-closed_example :
    all_closed "run-1"
      (run_batch sample_platform sample_engine 1 true idle_pool
        (items ∷ orders ∷ [])
        "run-1"
        "dev"
        "manual"
        none
        none
        none
        sample_world).1.tables.runs
    ≡ true
run_batch-closed_example =
    run_batch-closed sample_platform_sound sample_engine 1 true idle_pool idle_pool_returns
      (items ∷ orders ∷ []) two_levels "run-1" "dev" "manual" none none none sample_world
      order_tables-two

-- The result of a run of the two tables, and a default where there is none.
abbrev or_default : Result BatchResult → BatchResult
or_default (ok r) = r
or_default (err e) = record {
  run_id = "";
  env = "";
  status = RunStatus.failed;
  outcomes = [];
  skipped_for_dependencies = [];
}

abbrev two_tables_run : Result BatchResult
two_tables_run =
    (run_batch sample_platform sample_engine 1 true idle_pool (items ∷ orders ∷ []) "run-1" "dev"
      "manual" none none none sample_world).0

two_tables_returned : two_tables_run ≡ ok (or_default two_tables_run)
unfolding run_batch order_tables table_fqn ◌>>=◌ start_run bind_context get_log put_log emit
    run_with_retries register_config start_task try_except prepare finish_task dispatch finish_run
    WatermarkStore.window on_lake reconcile record_checks is_ok commit tracks_watermark
    WatermarkStore.advance lower bound_type replace_t strip cast_by_type
two_tables_returned = refl

run_batch-Complete_example : Complete (or_default two_tables_run)
run_batch-Complete_example =
    run_batch-Complete sample_engine 1 true idle_pool idle_pool_returns (items ∷ orders ∷ [])
      "run-1" "dev" "manual" none none none sample_world (or_default two_tables_run)
      two_tables_returned
