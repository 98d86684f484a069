-- ===== src/Engine/Batches.antt =====
-- What the extractor, the transformer and the loader hand to the runner, the names of a task's
-- views, and the reconciler. The engine's operations on Oracle and Spark are an interface.
use oracle_repo.Base.{
  ℕ, String, ◌<>◌, Bool, true, false, Option, none, some, List, [], ◌∷◌, ◌++◌, if◌then◌else◌,
}
use oracle_repo.Base.Text.{show, sanitize}
use oracle_repo.RunSpec.{RunSpec, Expectation}
use oracle_repo.Platform.{Platform, Result, ok, err}
use oracle_repo.Engine.Checks.{
  CheckResult, ReconciliationReport, reconcile_row_count, check_duplicates, check_null_keys,
  evaluate_expectation,
}
use oracle_repo.Engine.Expectations.{build_expectation_query}
use oracle_repo.Control.Watermark.{WatermarkWindow}

pub record ExtractResult (p : Platform) : Type 0 where
  pub dataframe : p.Frame
  pub lower_bound : Option String
  pub upper_bound : Option String
  pub new_watermark : Option String
  pub source_count : Option ℕ
  pub num_partitions : ℕ

-- `is_empty_batch`
abbrev pub is_empty_batch : {p : Platform} → ExtractResult p → Bool
is_empty_batch x = elim x.new_watermark [ none ↦ true | some s ↦ false ]

pub record ViewNames : Type 0 where
  pub raw : String
  pub staged : String

unfoldable pub view_names : String → String → ℕ → ViewNames
view_names table_fqn run_id attempt =
    let suffix = sanitize (table_fqn <> ("_" <> (run_id <> ("_" <> show attempt)))) in
    record { raw = "_ingest_raw_" <> suffix; staged = "_ingest_staged_" <> suffix }

pub record StageResult (p : Platform) : Type 0 where
  pub dataframe : p.Frame
  pub duplicates_removed : Option ℕ
  pub null_key_rows : Option ℕ

pub record LoadResult : Type 0 where
  pub target : String
  pub write_mode : String
  pub rows_written : Option ℕ
  pub rows_inserted : Option ℕ
  pub rows_updated : Option ℕ
  pub rows_deleted : Option ℕ
  pub table_created : Bool

-- The collaborators that reach Oracle and Spark; each may raise and may change the lake.
pub record Engine (p : Platform) : Type 0 where
  pub extract : RunSpec → WatermarkWindow → p.Lake → Result (ExtractResult p) × p.Lake
  pub stage :
      p.Frame → RunSpec → String → String → ℕ → ViewNames → p.Lake → Result (StageResult p) × p.Lake
  pub write : p.Frame → RunSpec → String → p.Lake → Result LoadResult × p.Lake
  -- `spark.sql(query).collect()`: the first value of the first row, 0 for no row
  pub count_rows : String → p.Lake → Result ℕ × p.Lake

module _ {p : Platform} (e : Engine p) where
  abbrev on_query : Result String → Expectation → p.Lake → Result CheckResult × p.Lake
  on_query (err x) expectation lake = (err x, lake)
  on_query (ok query) expectation lake =
      let (r, lake') = e.count_rows query lake in
      elim r [ err x ↦ (err x, lake') | ok n ↦ (ok (evaluate_expectation expectation n), lake') ]

  -- `Reconciler._evaluate`
  unfoldable pub evaluate : Expectation → RunSpec → String → p.Lake → Result CheckResult × p.Lake
  unfolding build_expectation_query evaluate_expectation
  evaluate expectation spec view =
      on_query (build_expectation_query p expectation spec view) expectation

  abbrev on_first :
      Result CheckResult
      → (p.Lake → Result (List CheckResult) × p.Lake)
      → p.Lake
      → Result (List CheckResult) × p.Lake
  on_first (err x) more lake = (err x, lake)
  on_first (ok c) more lake =
      let (r, lake') = more lake in elim r [ err x ↦ (err x, lake') | ok cs ↦ (ok (c ∷ cs), lake') ]

  -- The loop over the expectations, in their order.
  unfoldable pub evaluate_all :
      List Expectation → RunSpec → String → p.Lake → Result (List CheckResult) × p.Lake
  unfolding evaluate
  evaluate_all [] spec view lake = (ok [], lake)
  evaluate_all (x ∷ xs) spec view lake =
      let (r, lake') = evaluate x spec view lake in on_first r (evaluate_all xs spec view) lake'

  -- The checks on the counts, as the spec asks for them.
  unfoldable pub count_checks :
      RunSpec → Option ℕ → Option ℕ → Option ℕ → Option ℕ → List CheckResult
  unfolding reconcile_row_count check_duplicates check_null_keys
  count_checks spec source_count duplicates_removed null_key_rows rows_written =
      (if spec.quality.row_count_reconciliation
        then reconcile_row_count source_count duplicates_removed rows_written ∷ []
        else [])
      ++ (check_duplicates duplicates_removed spec
          ∷ (if spec.quality.null_check_keys
              then check_null_keys null_key_rows "fail" ∷ []
              else []))

  -- `Reconciler.run`
  unfoldable pub reconcile :
      RunSpec
      → Option ℕ
      → Option ℕ
      → Option ℕ
      → Option ℕ
      → String
      → p.Lake
      → Result ReconciliationReport × p.Lake
  unfolding count_checks evaluate_all
  reconcile spec source_count duplicates_removed null_key_rows rows_written view lake =
      let (r, lake') = evaluate_all spec.quality.expectations spec view lake in
      elim r [
        | err x ↦ (err x, lake')
        | ok cs ↦ (
          ok (count_checks spec source_count duplicates_removed null_key_rows rows_written ++ cs),
          lake',
        )
      ]
