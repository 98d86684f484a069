-- ===== src/Control/Store/Runs.antt =====
-- `ControlStore` of src/ingestion_framework/control/control_store.py: runs, and the
-- status that their tasks roll up to.
use oracle_repo.Base.{
  ℕ, String, ◌==◌, Bool, false, ◌&&◌, Option, none, some, List, [], ◌∷◌, ◌++◌, map, filter, eqb,
}
use oracle_repo.Platform.{Platform}
use oracle_repo.Control.Status.{TaskStatus, RunStatus, derive_run_status}
use oracle_repo.Control.Tables.{TaskRow}
use oracle_repo.Control.World.{Action, pure, client, read_clock, ◌>>=◌, ◌>>◌, update_where}
use oracle_repo.Control.Store.Clock.{or_now}
use oracle_repo.Control.Store.Tasks.{of_table, max_attempt}

pub record RunContext : Type 0 where
  pub run_id : String
  pub env : String
  pub started_at : ℕ
  pub trigger : String
  pub triggered_by : Option String
  pub table_count : ℕ

is_latest : List TaskRow → TaskRow → Bool
unfolding max_attempt
is_latest rows row = elim (max_attempt (filter (of_table row.run_id row.table_fqn) rows)) [
  | none ↦ false
  | some n ↦ eqb row.attempt n
]

-- The query of `task_statuses`: the status of the last attempt of each table of the run.
unfoldable pub latest_statuses : String → List TaskRow → List TaskStatus
unfolding is_latest
latest_statuses run_id rows =
    map (λ r. r.status) (filter (λ r. r.run_id == run_id && is_latest rows r) rows)

module _ (p : Platform) where
  unfoldable pub start_run :
      String
      → String
      → String
      → Option String
      → ℕ
      → Option String
      → Option String
      → Option ℕ
      → Action p RunContext
  unfolding client read_clock
  start_run run_id env trigger triggered_by table_count job_id job_run_id started_at = do
    started ← or_now p started_at
    client λ t. (
      tt,
      record t {
        runs =
            t.runs
            ++ record {
              run_id = run_id;
              env = env;
              status = RunStatus.running;
              trigger = trigger;
              triggered_by = triggered_by;
              job_id = job_id;
              job_run_id = job_run_id;
              table_count = table_count;
              started_at = started;
              ended_at = none;
              duration_ms = none;
              error_message = none;
            }
              ∷ [];
      },
    )
    pure (record {
      run_id = run_id;
      env = env;
      started_at = started;
      trigger = trigger;
      triggered_by = triggered_by;
      table_count = table_count;
    })

  unfoldable pub task_statuses : String → Action p (List TaskStatus)
  unfolding client latest_statuses
  task_statuses run_id = client (λ t. (latest_statuses run_id t.tasks, t))

  unfoldable pub resolve_status : String → Option RunStatus → Action p RunStatus
  unfolding task_statuses derive_run_status
  resolve_status run_id (some status) = pure status
  resolve_status run_id none =
      task_statuses run_id >>= λ statuses. pure (derive_run_status statuses)

  -- Close a run. With no explicit status, derive it from its tasks.
  unfoldable pub finish_run :
      RunContext → Option RunStatus → Option String → Option ℕ → Action p RunStatus
  unfolding client read_clock resolve_status
  finish_run run status error_message ended_at = do
    ended ← or_now p ended_at
    resolved ← resolve_status run.run_id status
    client λ t. (
      tt,
      record t {
        runs =
            update_where (λ r. r.run_id == run.run_id)
              (λ r. record r {
                status = resolved;
                ended_at = some ended;
                duration_ms = some (p.duration_ms run.started_at ended);
                error_message = error_message;
              })
              t.runs;
      },
    )
    pure resolved
