-- ===== src/Tests/Records.antt =====
-- The theorems on the audit log, the attempts' numbers and the row counts at concrete inputs.
use oracle_repo.Base.{
  ℕ, ◌+◌, ◌≡◌, ◌≤◌, ◌<◌, true, false, some, [], ◌∷◌, ◌++◌, any, ◌&&◌, leb, length,
}
use oracle_repo.Platform.{ok}
use oracle_repo.Engine.Checks.{reconcile_row_count, failed}
use oracle_repo.Engine.Checks.Laws.{reconcile_row_count_lem}
use oracle_repo.Control.Tables.{AuditEvent, task_started}
use oracle_repo.Control.Store.{of_table, next_attempt}
use oracle_repo.Control.Store.Attempts.{next_attempt_lem}
use oracle_repo.Control.Audit.{emit}
use oracle_repo.Control.Audit.Buffer.{recorded, emit_lem}
use oracle_repo.Tests.Sample.{sample_platform, sample_world, sample_platform_sound}

reconcile_row_count_example : (reconcile_row_count (some 5) (some 1) (some 3)).status ≡ failed
reconcile_row_count_example = reconcile_row_count_lem (some 5) (some 1) (some 3)

next_attempt_example :
    (n : ℕ) × ((next_attempt sample_platform "run-1" "sales.orders" sample_world).0 ≡ ok n)
    × (any (λ r. of_table "run-1" "sales.orders" r && leb n r.attempt) sample_world.tables.tasks
        ≡ false)
    × (any (of_table "run-1" "sales.orders") sample_world.tables.tasks ≡ false → n ≡ 1)
next_attempt_example = next_attempt_lem sample_platform_sound "run-1" "sales.orders" sample_world

emit_example :
    (e : AuditEvent) × ((emit sample_platform task_started
        (some "sales.orders")
        []
        (some "run-1")
        true
        sample_world).0
      ≡ ok e)
    × (e.sequence ≡ sample_world.log.sequence + 1)
    × ((emit sample_platform task_started
          (some "sales.orders")
          []
          (some "run-1")
          true
          sample_world).1.log.sequence
        ≡ sample_world.log.sequence + 1)
    × (recorded
          (emit sample_platform task_started
            (some "sales.orders")
            []
            (some "run-1")
            true
            sample_world).1
        ≡ recorded sample_world ++ e ∷ [])
    × (true ≡ true
        → (emit sample_platform task_started
            (some "sales.orders")
            []
            (some "run-1")
            true
            sample_world).1.log.buffer
          ≡ [])
    × (1 ≤ sample_world.log.buffer_limit
        → length
            (emit sample_platform task_started
              (some "sales.orders")
              []
              (some "run-1")
              true
              sample_world).1.log.buffer
          < sample_world.log.buffer_limit)
emit_example =
    emit_lem sample_platform_sound task_started (some "sales.orders") [] (some "run-1") true
      sample_world
