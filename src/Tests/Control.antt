-- ===== src/Tests/Control.antt =====
-- The control plane's theorems at concrete inputs.
use oracle_repo.Base.{ℕ, ◌≤◌, ◌≡◌, refl, String, true, some, List, [], ◌∷◌}
use oracle_repo.Platform.{to_timestamp}
use oracle_repo.Control.Status.{TaskStatus, RunStatus, is_terminal, may_move, derive_run_status}
use oracle_repo.Control.Status.Laws.{History, start, move, History_bounds, derive_run_status_lem}
use oracle_repo.Control.Tables.{WatermarkRow}
use oracle_repo.Control.WatermarkStore.{Mark, advance_guard, merge_advance, find_mark, overwritten}
use oracle_repo.Control.WatermarkStore.Laws.{merge_advance_lem}
use oracle_repo.Control.WatermarkStore.Monotone.{
  value_of, NotBack, Advances, none_yet, next, Advances-NotBack,
}
use oracle_repo.Tests.Sample.{sample_platform, sample_platform-IsOrdered, sample_mark}

running-succeeded : may_move TaskStatus.running TaskStatus.succeeded ≡ true
unfolding may_move
running-succeeded = refl

abbrev finished : History 1 TaskStatus.running TaskStatus.succeeded
finished = move TaskStatus.succeeded start running-succeeded

History_bounds_example : (1 ≤ 2) × (is_terminal TaskStatus.running ≡ true → ◌≡◌ {A = ℕ} 1 0)
History_bounds_example = History_bounds finished

abbrev two_tasks : List TaskStatus
two_tasks = TaskStatus.succeeded ∷ TaskStatus.failed ∷ []

derive_run_status_example : derive_run_status two_tasks ≡ RunStatus.partial
derive_run_status_example = derive_run_status_lem two_tasks

-- A move of sales.orders to 3, and one to 1, which the guard holds.
abbrev mark_at : String → Mark
mark_at value = record {
  table_fqn = "sales.orders";
  env = "dev";
  watermark_column = some "UPDATED";
  watermark_type = "timestamp";
  value = some value;
  run_id = "run-1";
  updated_at = 9;
}

merge_advance_example :
    find_mark sample_platform "sales.orders" "dev"
      (merge_advance sample_platform to_timestamp (mark_at "111") (sample_mark ∷ []))
    ≡ some (overwritten (mark_at "111") sample_mark)
unfolding find_mark advance_guard
merge_advance_example =
    merge_advance_lem sample_platform to_timestamp (mark_at "111") "sales.orders" "dev"
      (sample_mark ∷ [])

abbrev advanced_rows : List WatermarkRow
advanced_rows =
    merge_advance sample_platform to_timestamp (mark_at "1")
      (merge_advance sample_platform to_timestamp (mark_at "111") (sample_mark ∷ []))

abbrev two_advances :
    Advances sample_platform to_timestamp "sales.orders" "dev" (sample_mark ∷ []) advanced_rows
two_advances =
    next to_timestamp (mark_at "1") (next to_timestamp (mark_at "111") none_yet (λ same. refl))
      (λ same. refl)

Advances-NotBack_example :
    NotBack sample_platform to_timestamp
      (value_of (find_mark sample_platform "sales.orders" "dev" (sample_mark ∷ [])))
      (value_of (find_mark sample_platform "sales.orders" "dev" advanced_rows))
Advances-NotBack_example =
    Advances-NotBack sample_platform to_timestamp sample_platform-IsOrdered two_advances
