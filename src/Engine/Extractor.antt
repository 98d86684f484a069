-- ===== src/Engine/Extractor.antt =====
-- src/ingestion_framework/engine/extractor.py: the extractor.
pub mod Reads
use oracle_repo.Base.{
  ℕ, String, ◌==◌, not, ◌||◌, Option, none, some, List, [], ◌∷◌, map, if◌then◌else◌,
}
use oracle_repo.Base.Text.{lower, show}
use oracle_repo.Base.Dict.{get, put, put_all}
use oracle_repo.RunSpec.{
  Value, null, number, text, RunSpec, SourceSpec, is_set, is_parallel, bound_type, tracks_watermark,
  secret_key,
}
use oracle_repo.Platform.{Platform, extraction_error, sql_build_error, external, Result, ok, err}
use oracle_repo.Control.Watermark.{WatermarkWindow, canonicalize}
use oracle_repo.Engine.Batches.{ExtractResult}
use oracle_repo.Engine.Sql.Queries.{
  SourceQuery, as_subquery, build_source_query, build_count_query, build_bounds_query,
  build_upper_bound_query, build_max_watermark_query,
}
use oracle_repo.Engine.Cluster.{Cluster, Step, Options, give, refuse, lifted, ◌>>=◌}

pub record Credentials : Type 0 where
  pub username : String
  pub password : String

abbrev pub text_value : Option String → Value
text_value none = null
text_value (some s) = text s

abbrev or_empty : Option String → String
or_empty none = ""
or_empty (some s) = s

-- The options that every read begins with.
unfoldable pub login_options : SourceSpec → Credentials → Options
login_options source credentials =
    ("url", text_value source.url)
    ∷ ("driver", text source.driver)
    ∷ ("user", text credentials.username)
    ∷ ("password", text credentials.password)
    ∷ []

-- `options["sessionInitStatement"]`, where the source has one
unfoldable pub with_session : SourceSpec → Options → Options
unfolding put
with_session source options =
    if is_set source.session_init_statement
    then put "sessionInitStatement" (text_value source.session_init_statement) options
    else options

abbrev pub partitioned : RunSpec → SourceQuery → Value → Value → Options → Options
partitioned spec query lower upper options =
    put "numPartitions" (number (show spec.source.read.num_partitions)) (
      put "upperBound" upper (
        put "lowerBound" lower (
          put "partitionColumn" (text_value spec.source.read.partition_column)
            (put "dbtable" (text (as_subquery query "src")) options))))

-- A parallel read passes the extract as a table, every other one as a query.
unfoldable pub read_options : RunSpec → SourceQuery → Option (Value × Value) → Options → Options
unfolding put as_subquery is_parallel
read_options spec query none options = put "query" (text query.sql) options
read_options spec query (some (null, upper)) options = put "query" (text query.sql) options
read_options spec query (some (lower, null)) options = put "query" (text query.sql) options
read_options spec query (some (lower, upper)) options =
    if is_parallel spec.source.read
    then partitioned spec query lower upper options
    else put "query" (text query.sql) options

unfoldable pub jdbc_options : RunSpec → SourceQuery → Credentials → Option (Value × Value) → Options
unfolding login_options with_session read_options put put_all
jdbc_options spec query credentials partition_bounds = put_all spec.source.options (
    read_options spec query partition_bounds (
      with_session spec.source (
        put "fetchsize" (number (show spec.source.fetch_size))
          (login_options spec.source credentials))))

-- `_redact`
unfoldable pub redact : Options → Options
redact options =
    map (λ e. if lower e.0 == "password" || lower e.0 == "user" then (e.0, text "***") else e)
      options

module _ {p : Platform} (cluster : Cluster p) where
  unfoldable pub credentials : RunSpec → Step p.Lake Credentials
  unfolding secret_key
  credentials spec =
      if not (is_set spec.source.secret_scope)
      then refuse extraction_error
      else if not cluster.has_secrets
      then refuse extraction_error
      else do
        let scope = or_empty spec.source.secret_scope
        username ← cluster.secret scope (secret_key "username" spec.source)
        password ← cluster.secret scope (secret_key "password" spec.source)
        give (record { username = username; password = password })

  -- `row[column]`
  column_of : String → List (String × Value) → Result Value
  unfolding get
  column_of column row = elim (get column row) [
    | none ↦ err (external "KeyError" column)
    | some v ↦ ok v
  ]

  unfoldable pub first_value : String → Option (List (String × Value)) → Result Value
  unfolding column_of
  first_value column none = ok null
  first_value column (some row) = column_of column row

  -- `_scalar`, `null` where there is no row
  unfoldable pub scalar : String → String → Credentials → RunSpec → Step p.Lake Value
  unfolding login_options with_session first_value put
  scalar sql column credentials spec = do
    frame ←
        cluster.read (
          with_session spec.source (put "query" (text sql) (login_options spec.source credentials)))
    row ← cluster.first_row frame
    lifted (first_value column row)

  unfoldable pub probe_upper_bound : RunSpec → Credentials → Step p.Lake (Option String)
  unfolding tracks_watermark scalar build_upper_bound_query canonicalize bound_type
  probe_upper_bound spec credentials =
      if not (tracks_watermark spec.extraction) || not spec.extraction.incremental.use_upper_bound
      then give none
      else do
        value ← scalar (build_upper_bound_query spec) "UPPER_BOUND" credentials spec
        lifted (canonicalize p value (bound_type spec.extraction.incremental))

  unfoldable pub probe_max_watermark :
      RunSpec → SourceQuery → Credentials → Step p.Lake (Option String)
  unfolding tracks_watermark scalar build_max_watermark_query canonicalize bound_type
  probe_max_watermark spec query credentials =
      if not (tracks_watermark spec.extraction) then give none else do
        sql ← lifted (build_max_watermark_query query "src")
        value ← scalar sql "MAX_WATERMARK" credentials spec
        lifted (canonicalize p value (bound_type spec.extraction.incremental))

  explicit_bounds : Value → Value → Result (Option (Value × Value))
  explicit_bounds null upper = err extraction_error
  explicit_bounds lower null = err extraction_error
  explicit_bounds lower upper = ok (some (lower, upper))

  bounds_of : Option (List (String × Value)) → Result (Option (Value × Value))
  unfolding column_of
  bounds_of none = ok none
  bounds_of (some row) = elim (column_of "LOWER_BOUND" row) [
    | err e ↦ err e
    | ok lower ↦ elim (column_of "UPPER_BOUND" row) [
      | err e ↦ err e
      | ok upper ↦ ok (some (lower, upper))
    ]
  ]

  unfoldable pub probe_partition_bounds :
      RunSpec → SourceQuery → Credentials → Step p.Lake (Option (Value × Value))
  unfolding is_parallel explicit_bounds bounds_of build_bounds_query login_options put
  probe_partition_bounds spec query credentials =
      if not (is_parallel spec.source.read)
      then give none
      else if spec.source.read.bounds_strategy == "explicit"
      then lifted (explicit_bounds spec.source.read.lower_bound spec.source.read.upper_bound)
      else do
        sql ← lifted (build_bounds_query spec query "src")
        frame ← cluster.read (put "query" (text sql) (login_options spec.source credentials))
        row ← cluster.first_row frame
        lifted (bounds_of row)

  -- `int(value) if value is not None else None`
  count_of : Value → Result (Option ℕ)
  count_of null = ok none
  count_of v = elim (p.to_count v) [
    | none ↦ err (external "ValueError" "int()")
    | some n ↦ ok (some n)
  ]

  unfoldable pub count_source : RunSpec → SourceQuery → Credentials → Step p.Lake (Option ℕ)
  unfolding scalar build_count_query count_of
  count_source spec query credentials =
      if not spec.quality.row_count_reconciliation then give none else do
        value ← scalar (build_count_query query "src") "SOURCE_COUNT" credentials spec
        lifted (count_of value)

  -- `_load_query_file`
  unfoldable pub load_query_file : RunSpec → Result String
  load_query_file spec =
      if not (is_set spec.extraction.query_file)
      then err sql_build_error
      else elim (cluster.query_text (or_empty spec.extraction.query_file)) [
        | none ↦ err extraction_error
        | some s ↦ ok s
      ]

  custom_sql : RunSpec → Result (Option String)
  unfolding load_query_file
  custom_sql spec =
      if spec.extraction.mode == "query"
      then elim (load_query_file spec) [ err e ↦ err e | ok s ↦ ok (some s) ]
      else ok none

  unfoldable pub build_query : RunSpec → WatermarkWindow → Option String → Result SourceQuery
  unfolding custom_sql tracks_watermark build_source_query
  build_query spec window upper_bound = elim (custom_sql spec) [
    | err e ↦ err e
    | ok sql ↦
        build_source_query p spec
          (if tracks_watermark spec.extraction then window.lower_bound else none) upper_bound sql
  ]

  -- The pinned bound is the cut that the batch was read at; else the mark is what the data shows.
  unfoldable pub new_watermark :
      RunSpec → SourceQuery → Credentials → Option String → Step p.Lake (Option String)
  unfolding probe_max_watermark
  new_watermark spec query credentials upper_bound =
      if is_set upper_bound then give upper_bound else probe_max_watermark spec query credentials

  unfoldable pub extract : RunSpec → WatermarkWindow → Step p.Lake (ExtractResult p)
  unfolding credentials probe_upper_bound build_query probe_partition_bounds jdbc_options
      count_source new_watermark
  extract spec window = do
    login ← credentials spec
    upper_bound ← probe_upper_bound spec login
    query ← lifted (build_query spec window upper_bound)
    partition_bounds ← probe_partition_bounds spec query login
    dataframe ← cluster.read (jdbc_options spec query login partition_bounds)
    source_count ← count_source spec query login
    mark ← new_watermark spec query login upper_bound
    give (record {
      dataframe = dataframe;
      lower_bound = window.lower_bound;
      upper_bound = upper_bound;
      new_watermark = mark;
      source_count = source_count;
      num_partitions = elim partition_bounds [
        | none ↦ 1
        | some bounds ↦ spec.source.read.num_partitions
      ];
    })
