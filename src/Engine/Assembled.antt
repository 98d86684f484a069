-- ===== src/Engine/Assembled.antt =====
-- The engine that the runner is given: the extractor, the transformer and the loader of
-- src/ingestion_framework/engine on one cluster.
use oracle_repo.Platform.{Platform}
use oracle_repo.Engine.Batches.{Engine}
use oracle_repo.Engine.Cluster.{Cluster}
use oracle_repo.Engine.Extractor
use oracle_repo.Engine.Transformer
use oracle_repo.Engine.Loader

abbrev pub engine_of : {p : Platform} → Cluster p → Engine p
engine_of cluster = record {
  extract = Extractor.extract cluster;
  stage = Transformer.stage cluster;
  write = Loader.write cluster;
  count_rows = cluster.sql_value;
}
