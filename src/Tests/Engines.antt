-- ===== src/Tests/Engines.antt =====
-- The theorems on the extractor, the transformer and the loader at concrete inputs.
use oracle_repo.Base.{refl, ◌≡◌, ℕ, false, none, some, [], ◌∷◌}
use oracle_repo.RunSpec.{number, target_fqn}
use oracle_repo.Platform.{ok}
use oracle_repo.Engine.Cluster.{◌>>=◌}
use oracle_repo.Engine.Batches.{LoadResult}
use oracle_repo.Engine.Sql.Queries.{SourceQuery}
use oracle_repo.Engine.Extractor.{Credentials, jdbc_options}
use oracle_repo.Engine.Extractor.Reads.{ReadsOnce, jdbc_options_lem}
use oracle_repo.Engine.Loader.{ensure_table, write_batch, write}
use oracle_repo.Engine.Loader.Returning.{write_returns}
use oracle_repo.Tests.Sample.{sample_spec, sample_cluster}

abbrev sample_query : SourceQuery
sample_query = record {
  sql = "SELECT * FROM APP.ORDERS";
  mode = "incremental";
  lower_bound = none;
  upper_bound = none;
  lower_inclusive = false;
  watermark_column = some "UPDATED";
  projected_columns = "*" ∷ [];
}

abbrev sample_login : Credentials
sample_login = record { username = "reader"; password = "secret" }

jdbc_options_example :
    ReadsOnce sample_spec sample_query
      (jdbc_options sample_spec sample_query sample_login (some (number "1", number "9")))
jdbc_options_example =
    jdbc_options_lem sample_spec sample_query sample_login (some (number "1", number "9")) refl refl
      refl

table_stands : ensure_table sample_cluster sample_spec 2 0 ≡ (ok false, 0)
unfolding ensure_table ◌>>=◌
table_stands = refl

batch_written : write_batch sample_cluster 2 sample_spec "staged" 0 ≡ (ok tt, 1)
unfolding write_batch
batch_written = refl

write_returns_example :
    (r : LoadResult) × (after : ℕ) × (write sample_cluster 2 sample_spec "staged" 0 ≡ (ok r, after))
    × (r.table_created ≡ false)
    × (r.target ≡ target_fqn sample_spec.target)
write_returns_example =
    write_returns sample_cluster 2 sample_spec "staged" false 0 0 1 table_stands batch_written
