-- ===== src/Engine/Loader.antt =====
-- src/ingestion_framework/engine/loader.py: the creation of a target, the counters of a write, and
-- the loader. The texts of the executed statements, which the result lists, are left out.
pub mod Returning
use oracle_repo.Base.{
  ℕ, ◌+◌, String, ◌<>◌, ◌==◌, Bool, true, false, Option, none, some, List, [], ◌∷◌, ◌++◌, map,
  is_empty, if◌then◌else◌,
}
use oracle_repo.Base.Text.{join, double_quotes}
use oracle_repo.Base.Dict.{get, put, put_default, sorted}
use oracle_repo.RunSpec.{Value, null, RunSpec, is_set, target_fqn, source_fqn}
use oracle_repo.Platform.{Platform, load_error, sql_build_error, Result, ok, err, and_then}
use oracle_repo.Control.Schema.{qualify}
use oracle_repo.Engine.Batches.{LoadResult}
use oracle_repo.Engine.Merge.{delta_identifier, delta_identifiers, build_merge_sql}
use oracle_repo.Engine.Cluster.{Cluster, Step, give, refuse, lifted, or_else, ◌>>=◌, ◌>>◌}

-- `{name} {dtype}` of each column
column_defs : List (String × String) → Result (List String)
unfolding delta_identifier
column_defs [] = ok []
column_defs ((name, dtype) ∷ columns) =
    and_then (delta_identifier name)
      (λ n. and_then (column_defs columns) (λ cs. ok ((n <> (" " <> dtype)) ∷ cs)))

description_clause : Option String → List String
description_clause none = []
description_clause (some s) =
    if is_set (some s) then ("COMMENT '" <> (double_quotes s <> "'")) ∷ [] else []

-- Partitioning is the explicit opt-out of clustering.
layout_clause : RunSpec → Result (List String)
unfolding delta_identifiers
layout_clause spec =
    if is_empty spec.target.partition_by
    then if is_empty spec.target.cluster_by
      then ok []
      else and_then (delta_identifiers spec.target.cluster_by)
          (λ cs. ok (("CLUSTER BY (" <> (join ", " cs <> ")")) ∷ []))
    else and_then (delta_identifiers spec.target.partition_by)
        (λ cs. ok (("PARTITIONED BY (" <> (join ", " cs <> ")")) ∷ []))

unfoldable pub table_properties : RunSpec → List (String × String)
unfolding put put_default sorted source_fqn
table_properties spec =
    let own = spec.target.table_properties in
    let fed =
      if spec.target.enable_change_data_feed
      then put "delta.enableChangeDataFeed" "true" own
      else own in
    sorted (λ e. e.0)
      (put_default "ingestion.managed_by" "ingestion-framework"
        (put_default "ingestion.source_table" (source_fqn spec.table) fed))

unfoldable pub build_create_table_sql : RunSpec → List (String × String) → Result String
unfolding qualify column_defs description_clause layout_clause table_properties
build_create_table_sql spec columns =
    if is_empty columns
    then err sql_build_error
    else and_then (qualify (spec.target.catalog ∷ spec.target.schema ∷ spec.target.table_name ∷ []))
        (λ target. and_then (column_defs columns) (λ defs. and_then (layout_clause spec) (λ layout.
          ok (
            join "\n" (
              ("CREATE TABLE IF NOT EXISTS " <> (target <> " ("))
              ∷ ("  " <> join ",\n  " defs)
              ∷ ")"
              ∷ "USING DELTA"
              ∷ (description_clause spec.table.description
                  ++ (layout
                      ++ (("TBLPROPERTIES ("
                            <> (join ", " (
                                  map (λ e. "'" <> (e.0 <> ("' = '" <> (e.1 <> "'"))))
                                    (table_properties spec))
                                <> ")"))
                          ∷ []))))))))

unfoldable pub build_history_metrics_query : RunSpec → String
unfolding target_fqn
build_history_metrics_query spec =
    "SELECT operationMetrics FROM (DESCRIBE HISTORY "
    <> (target_fqn spec.target <> ") ORDER BY version DESC LIMIT 1")

pub record Metrics : Type 0 where
  pub rows_inserted : Option ℕ
  pub rows_updated : Option ℕ
  pub rows_deleted : Option ℕ
  pub rows_written : Option ℕ

-- `inserted + (updated or 0)`, where the operation did not say what it wrote.
written_or_sum : Option ℕ → Option ℕ → Option ℕ → Option ℕ
written_or_sum (some n) inserted updated = some n
written_or_sum none none updated = none
written_or_sum none (some i) none = some i
written_or_sum none (some i) (some u) = some (i + u)

module _ (p : Platform) where
  -- `_to_int(metrics[key])`, where there is such an entry
  metric : String → List (String × Value) → Option ℕ
  unfolding get
  metric key metrics = elim (get key metrics) [
    | none ↦ none
    | some v ↦ elim v [ null ↦ none | w ↦ p.to_count w ]
  ]

  unfoldable pub parse_operation_metrics : List (String × Value) → Metrics
  unfolding metric written_or_sum
  parse_operation_metrics metrics =
      let inserted = metric "numTargetRowsInserted" metrics in
      let updated = metric "numTargetRowsUpdated" metrics in
      record {
        rows_inserted = inserted;
        rows_updated = updated;
        rows_deleted = metric "numTargetRowsDeleted" metrics;
        rows_written = written_or_sum (metric "numOutputRows" metrics) inserted updated;
      }

abbrev no_metrics : Metrics
no_metrics = record {
  rows_inserted = none;
  rows_updated = none;
  rows_deleted = none;
  rows_written = none;
}

-- What the history's row says, if there is one.
unfoldable pub metrics_of_row : (p : Platform) → Option (List (String × Value)) → Metrics
unfolding parse_operation_metrics
metrics_of_row p none = no_metrics
metrics_of_row p (some metrics) = parse_operation_metrics p metrics

unfoldable pub load_result : RunSpec → Bool → Metrics → LoadResult
unfolding target_fqn
load_result spec created metrics = record {
  target = target_fqn spec.target;
  write_mode = spec.target.write_mode;
  rows_written = metrics.rows_written;
  rows_inserted = metrics.rows_inserted;
  rows_updated = metrics.rows_updated;
  rows_deleted = metrics.rows_deleted;
  table_created = created;
}

module _ {p : Platform} (cluster : Cluster p) where
  create_table : RunSpec → p.Frame → Step p.Lake Bool
  unfolding build_create_table_sql
  create_table spec dataframe = do
    statement ← lifted (build_create_table_sql spec (cluster.fields dataframe))
    cluster.sql statement
    give true

  -- Whether the target was created.
  unfoldable pub ensure_table : RunSpec → p.Frame → Step p.Lake Bool
  unfolding create_table target_fqn
  ensure_table spec dataframe = do
    exists ← cluster.table_exists (target_fqn spec.target)
    (if exists then give false else create_table spec dataframe)

  unfoldable pub merge_batch : p.Frame → RunSpec → String → Step p.Lake (Unit {0})
  unfolding build_merge_sql
  merge_batch dataframe spec staged_view = do
    cluster.create_view dataframe staged_view
    (if spec.target.schema_evolution
        then cluster.set_conf "spark.databricks.delta.schema.autoMerge.enabled" "true"
        else give tt)
    statement ← lifted (build_merge_sql spec (cluster.columns dataframe) staged_view)
    cluster.sql statement
    give tt

  unfoldable pub write_df : p.Frame → RunSpec → String → Step p.Lake (Unit {0})
  unfolding target_fqn
  write_df dataframe spec mode =
      cluster.save dataframe mode
        (if spec.target.schema_evolution
          then some (if mode == "overwrite" then "overwriteSchema" else "mergeSchema", "true")
          else none)
        spec.target.partition_by (target_fqn spec.target)

  -- Metrics are diagnostics, never the reason a load fails.
  unfoldable pub collect_metrics : RunSpec → Step p.Lake Metrics
  unfolding metrics_of_row build_history_metrics_query
  collect_metrics spec = do
    row ← or_else none (cluster.history (build_history_metrics_query spec))
    give (metrics_of_row p row)

  -- The write itself, by the mode.
  unfoldable pub write_batch : p.Frame → RunSpec → String → Step p.Lake (Unit {0})
  unfolding merge_batch write_df
  write_batch dataframe spec staged_view =
      let mode = spec.target.write_mode in
      if mode == "merge"
      then merge_batch dataframe spec staged_view
      else if mode == "append"
      then write_df dataframe spec "append"
      else if mode == "overwrite"
      then write_df dataframe spec "overwrite"
      else refuse load_error

  unfoldable pub write : p.Frame → RunSpec → String → Step p.Lake LoadResult
  unfolding ensure_table write_batch collect_metrics load_result
  write dataframe spec staged_view = do
    created ← ensure_table spec dataframe
    write_batch dataframe spec staged_view
    metrics ← collect_metrics spec
    give (load_result spec created metrics)
