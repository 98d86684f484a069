-- ===== src/Control/Store/Tasks.antt =====
-- `ControlStore` of src/ingestion_framework/control/control_store.py: tasks.
use Prim.Native.String.{count}
use Prim.Native.Nat.{max}
use oracle_repo.Base.{
  ℕ, ◌+◌, ◌-◌, String, ◌<>◌, ◌==◌, Bool, ◌&&◌, Option, none, some, List, [], ◌∷◌, ◌++◌, filter,
  head?, eqb, leb, if◌then◌else◌,
}
use oracle_repo.Base.Int.{ℤ}
use oracle_repo.Base.Text.{show, take_chars}
use oracle_repo.Platform.{Platform, control_state_error, Result, ok, err}
use oracle_repo.Control.Status.{TaskStatus, may_move}
use oracle_repo.Control.Tables.{TaskMetrics, TaskRow}
use oracle_repo.Control.World.{Action, pure, lift, client, read_clock, ◌>>=◌, ◌>>◌, update_where}
use oracle_repo.Control.Store.Clock.{or_now, duration_since}

pub record TaskRef : Type 0 where
  pub run_id : String
  pub table_fqn : String
  pub attempt : ℕ

abbrev pub no_metrics : TaskMetrics
no_metrics = record {
  source_count = none;
  rows_read = none;
  rows_written = none;
  rows_inserted = none;
  rows_updated = none;
  rows_deleted = none;
  bytes_written = none;
  watermark_from = none;
  watermark_to = none;
}

unfoldable pub assert_transition : TaskStatus → TaskStatus → Result (Unit {0})
unfolding may_move
assert_transition current new = if may_move current new then ok tt else err control_state_error

-- `_truncate` at its default limit
unfoldable pub truncate : Option String → Option String
truncate none = none
truncate (some s) =
    if leb (count s) 8000
    then some s
    else some (take_chars 8000 s <> ("... [truncated " <> (show (count s - 8000) <> " chars]")))

-- `run_id = … AND table_fqn = …`, and with `AND attempt = …`
abbrev pub of_table : String → String → TaskRow → Bool
of_table run_id table_fqn row = row.run_id == run_id && row.table_fqn == table_fqn

abbrev pub at_task : TaskRef → TaskRow → Bool
at_task task row = of_table task.run_id task.table_fqn row && eqb row.attempt task.attempt

-- `SELECT MAX(attempt)` over some rows, NULL over none
unfoldable pub max_attempt : List TaskRow → Option ℕ
max_attempt [] = none
max_attempt (row ∷ rows) = elim (max_attempt rows) [
  | none ↦ some row.attempt
  | some n ↦ some (max row.attempt n)
]

-- `int(current) + 1 if current else 1`: NULL and 0 both give 1.
unfoldable pub after_attempt : Option ℕ → ℕ
after_attempt none = 1
after_attempt (some n) = n + 1

-- The SET list of `finish_task`
abbrev pub closed :
    TaskStatus → TaskMetrics → Option ℤ → Option String → Option String → ℕ → TaskRow → TaskRow
closed status metrics duration error_type error_message ended row = record row {
  status = status;
  metrics = record metrics {
    watermark_from = elim metrics.watermark_from [
      | none ↦ row.metrics.watermark_from
      | some v ↦ some v
    ];
  };
  ended_at = some ended;
  duration_ms = duration;
  error_type = error_type;
  error_message = error_message;
}

module _ (p : Platform) where
  -- Open a task in RUNNING.
  unfoldable pub start_task :
      String
      → String
      → String
      → String
      → String
      → String
      → ℕ
      → Option String
      → Option ℕ
      → Action p TaskRef
  unfolding client read_clock
  start_task run_id table_fqn env extraction_mode write_mode config_hash attempt watermark_from
        started_at =
      do
        started ← or_now p started_at
        client λ t. (
          tt,
          record t {
            tasks =
                t.tasks
                ++ record {
                  run_id = run_id;
                  table_fqn = table_fqn;
                  env = env;
                  attempt = attempt;
                  status = TaskStatus.running;
                  extraction_mode = extraction_mode;
                  write_mode = write_mode;
                  metrics = record no_metrics { watermark_from = watermark_from };
                  config_hash = config_hash;
                  started_at = started;
                  ended_at = none;
                  duration_ms = none;
                  error_type = none;
                  error_message = none;
                }
                  ∷ [];
          },
        )
        pure (record { run_id = run_id; table_fqn = table_fqn; attempt = attempt })

  -- Close a task. The transition is checked from the status that the caller states.
  unfoldable pub finish_task :
      TaskRef
      → TaskStatus
      → TaskMetrics
      → Option String
      → Option String
      → Option ℕ
      → Option ℕ
      → TaskStatus
      → Action p TaskStatus
  unfolding client read_clock assert_transition truncate
  finish_task task status metrics error_type error_message started_at ended_at current_status = do
    lift (assert_transition current_status status)
    ended ← or_now p ended_at
    client λ t. (
      tt,
      record t {
        tasks =
            update_where (at_task task)
              (closed status metrics (duration_since p started_at ended) error_type
                (truncate error_message) ended)
              t.tasks;
      },
    )
    pure status

  -- The attempt number a retry should use.
  unfoldable pub next_attempt : String → String → Action p ℕ
  unfolding client max_attempt after_attempt
  next_attempt run_id table_fqn =
      client λ t. (after_attempt (max_attempt (filter (of_table run_id table_fqn) t.tasks)), t)

  unfoldable pub get_task : TaskRef → Action p (Option TaskRow)
  unfolding client
  get_task task = client (λ t. (head? (filter (at_task task) t.tasks), t))
