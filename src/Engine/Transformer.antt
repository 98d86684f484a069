-- ===== src/Engine/Transformer.antt =====
-- src/ingestion_framework/engine/transformer.py: the transformer.
use oracle_repo.Base.{ℕ, String, Option, none, some, is_empty, if◌then◌else◌}
use oracle_repo.RunSpec.{RunSpec}
use oracle_repo.Platform.{Platform, Result}
use oracle_repo.Engine.Batches.{ViewNames, StageResult}
use oracle_repo.Engine.Staging.{
  StageQuery, build_stage_query, build_duplicate_count_query, build_null_key_query,
}
use oracle_repo.Engine.Cluster.{Cluster, Step, give, lifted, ◌>>=◌, ◌>>◌}

module _ {p : Platform} (cluster : Cluster p) where
  counted : Result String → Step p.Lake (Option ℕ)
  counted query = do q ← lifted query; n ← cluster.sql_count q; give (some n)

  -- The counts that the batch is asked for: duplicates, and rows with a missing key.
  unfoldable pub duplicates_of : RunSpec → StageQuery → ViewNames → Step p.Lake (Option ℕ)
  unfolding build_duplicate_count_query counted
  duplicates_of spec query views =
      if is_empty spec.target.merge_keys
      then give none
      else if query.dedupe_applied
      then counted (build_duplicate_count_query spec views.raw)
      else give none

  unfoldable pub null_keys_of : RunSpec → ViewNames → Step p.Lake (Option ℕ)
  unfolding build_null_key_query counted
  null_keys_of spec views =
      if is_empty spec.target.merge_keys
      then give none
      else if spec.quality.null_check_keys
      then counted (build_null_key_query spec views.raw)
      else give none

  unfoldable pub stage :
      p.Frame → RunSpec → String → String → ℕ → ViewNames → Step p.Lake (StageResult p)
  unfolding build_stage_query duplicates_of null_keys_of
  stage dataframe spec run_id batch_id ingested_at views = do
    cluster.create_view dataframe views.raw
    query ←
        lifted (
          build_stage_query p spec (cluster.columns dataframe) run_id batch_id ingested_at
            views.raw)
    duplicates ← duplicates_of spec query views
    null_keys ← null_keys_of spec views
    staged ← cluster.sql query.sql
    cluster.create_view staged views.staged
    give (record { dataframe = staged; duplicates_removed = duplicates; null_key_rows = null_keys })
