-- ===== src/Engine/Checks.antt =====
-- src/ingestion_framework/engine/reconciler.py: the counts and the report.
-- The texts of `details` are for readers only and are not modelled; the rest of a result is.
pub mod Laws
use oracle_repo.Base.{
  ℕ, String, ◌<>◌, Bool, true, false, Option, none, some, List, ◌==◌, eqb, filter, length, map,
  is_empty, if◌then◌else◌,
}
use oracle_repo.Base.Int.{ℤ, pos, ◌-ℤ◌, is_zero}
use oracle_repo.RunSpec.{RunSpec, Expectation, is_incremental}

pub data CheckStatus : Type 0 where
  passed failed warned skipped : CheckStatus

pub record CheckResult : Type 0 where
  pub check_type : String
  pub check_name : String
  pub status : CheckStatus
  pub source_count : Option ℕ
  pub target_count : Option ℕ
  pub delta : Option ℤ

-- `is_failure`, and the `is CheckStatus.WARNED` of `warnings`
abbrev pub is_failure : CheckResult → Bool
is_failure c = elim c.status [ failed ↦ true | _ ↦ false ]

abbrev pub is_warning : CheckResult → Bool
is_warning c = elim c.status [ warned ↦ true | _ ↦ false ]

-- `n or 0`
abbrev pub or_zero : Option ℕ → ℕ
or_zero none = 0
or_zero (some n) = n

-- Once both counts are known.
compare_counts : ℕ → Option ℕ → ℕ → CheckResult
compare_counts source duplicates written =
    let delta = pos written -ℤ (pos source -ℤ pos (or_zero duplicates)) in
    record {
      check_type = "row_count";
      check_name = "source_vs_target";
      status = if is_zero delta then passed else failed;
      source_count = some source;
      target_count = some written;
      delta = some delta;
    }

counts_unavailable : Option ℕ → Option ℕ → CheckResult
counts_unavailable source_count rows_written = record {
  check_type = "row_count";
  check_name = "source_vs_target";
  status = skipped;
  source_count = source_count;
  target_count = rows_written;
  delta = none;
}

-- Compare what the source offered with what the target absorbed.
unfoldable pub reconcile_row_count : Option ℕ → Option ℕ → Option ℕ → CheckResult
unfolding compare_counts counts_unavailable
reconcile_row_count none duplicates rows_written = counts_unavailable none rows_written
reconcile_row_count (some source) duplicates none = counts_unavailable (some source) none
reconcile_row_count (some source) duplicates (some written) =
    compare_counts source duplicates written

abbrev check : String → String → CheckStatus → Option ℤ → CheckResult
check type name status delta = record {
  check_type = type;
  check_name = name;
  status = status;
  source_count = none;
  target_count = none;
  delta = delta;
}

-- FAILED for `action == "fail"`, else WARNED
abbrev severity : String → CheckStatus
severity action = if action == "fail" then failed else warned

unfoldable pub check_null_keys : Option ℕ → String → CheckResult
check_null_keys none action = check "null_key" "merge_keys_not_null" skipped none
check_null_keys (some rows) action =
    if eqb rows 0
    then check "null_key" "merge_keys_not_null" passed (some (pos 0))
    else check "null_key" "merge_keys_not_null" (severity action) (some (pos rows))

-- Duplicates are expected on an incremental overlap, suspicious on a full load.
unfoldable pub check_duplicates : Option ℕ → RunSpec → CheckResult
check_duplicates none spec = check "duplicates" "duplicate_keys" skipped none
check_duplicates (some removed) spec =
    if eqb removed 0
    then check "duplicates" "duplicate_keys" passed (some (pos 0))
    else check "duplicates" "duplicate_keys"
        (if is_incremental spec.extraction then passed else warned) (some (pos removed))

unfoldable pub evaluate_expectation : Expectation → ℕ → CheckResult
evaluate_expectation e violations =
    let name = e.column <> (" " <> e.rule) in
    if eqb violations 0
    then check "expectation" name passed (some (pos 0))
    else check "expectation" name (severity e.action) (some (pos violations))

-- `ReconciliationReport`: its one field is `checks`.
abbrev pub ReconciliationReport : Type 0
ReconciliationReport = List CheckResult

unfoldable pub failures : ReconciliationReport → List CheckResult
failures report = filter is_failure report

unfoldable pub warnings : ReconciliationReport → List CheckResult
warnings report = filter is_warning report

-- `report.ok`
unfoldable pub is_ok : ReconciliationReport → Bool
unfolding failures
is_ok report = is_empty (failures report)

pub record Summary : Type 0 where
  pub checks : ℕ
  pub failed : ℕ
  pub warned : ℕ
  pub failed_checks : List String

unfoldable pub summarize : ReconciliationReport → Summary
unfolding failures warnings
summarize report = record {
  checks = length report;
  failed = length (failures report);
  warned = length (warnings report);
  failed_checks = map (λ c. c.check_name) (failures report);
}
