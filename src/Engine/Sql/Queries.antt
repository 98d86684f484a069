-- ===== src/Engine/Sql/Queries.antt =====
-- src/ingestion_framework/engine/sql_builder.py: the queries of an extract and its probes.
use oracle_repo.Base.{
  String, ◌<>◌, ◌==◌, Bool, Option, none, some, List, [], ◌∷◌, ◌++◌, eqb, is_empty, if◌then◌else◌,
  ℕ,
}
use oracle_repo.Base.Text.{join, strip, is_blank, show}
use oracle_repo.RunSpec.{RunSpec, is_set, uses_scn, effective_watermark_column, is_incremental}
use oracle_repo.Platform.{Platform, sql_build_error, Result, ok, err, and_then}
use oracle_repo.Engine.Sql.Literals.{identifier}
use oracle_repo.Engine.Sql.Predicates.{lower_bound_is_inclusive, build_projection, build_predicates}
use oracle_repo.Engine.Sql.Templates.{render_query_template}

pub record SourceQuery : Type 0 where
  pub sql : String
  pub mode : String
  pub lower_bound : Option String
  pub upper_bound : Option String
  pub lower_inclusive : Bool
  pub watermark_column : Option String
  pub projected_columns : List String

unfoldable pub as_subquery : SourceQuery → String → String
as_subquery q alias = "(" <> (q.sql <> (") " <> alias))

-- The text of an option, a missing one as the empty text.
abbrev text_of : Option String → String
text_of none = ""
text_of (some s) = s

unfoldable pub where_clause : List String → List String
unfolding join
where_clause predicates =
    if is_empty predicates then [] else ("WHERE " <> join "\n  AND " predicates) ∷ []

unfoldable pub limit_clause : Option ℕ → List String
limit_clause none = []
limit_clause (some n) = if eqb n 0 then [] else ("FETCH FIRST " <> (show n <> " ROWS ONLY")) ∷ []

-- `{source_schema}.{source_object}`, both checked
source_table : RunSpec → Result String
unfolding identifier
source_table spec = and_then (identifier spec.table.source_schema) (λ schema.
    and_then (identifier spec.table.source_object) (λ object. ok (schema <> ("." <> object))))

module _ (p : Platform) where
  custom_query : RunSpec → Option String → Option String → Option String → Result SourceQuery
  unfolding render_query_template lower_bound_is_inclusive effective_watermark_column
  custom_query spec lower_bound upper_bound custom_sql =
      if is_blank (strip (text_of custom_sql))
      then err sql_build_error
      else and_then (render_query_template p (text_of custom_sql) spec lower_bound upper_bound)
          (λ sql. ok (record {
            sql = sql;
            mode = "query";
            lower_bound = lower_bound;
            upper_bound = upper_bound;
            lower_inclusive = lower_bound_is_inclusive spec;
            watermark_column = effective_watermark_column spec.extraction.incremental;
            projected_columns = [];
          }))

  table_query : RunSpec → Option String → Option String → Result SourceQuery
  unfolding build_projection source_table build_predicates where_clause limit_clause
      lower_bound_is_inclusive effective_watermark_column is_incremental
  table_query spec lower_bound upper_bound = and_then (build_projection spec) (λ columns.
      and_then (source_table spec) (λ source.
        and_then (build_predicates p spec lower_bound upper_bound) (λ predicates. ok (record {
          sql = join "\n" (
              ("SELECT " <> join ", " columns)
              ∷ ("FROM " <> source)
              ∷ (where_clause predicates ++ limit_clause spec.extraction.row_limit));
          mode = spec.extraction.mode;
          lower_bound = lower_bound;
          upper_bound = upper_bound;
          lower_inclusive = lower_bound_is_inclusive spec;
          watermark_column =
              if is_incremental spec.extraction
              then effective_watermark_column spec.extraction.incremental
              else none;
          projected_columns = columns;
        }))))

  unfoldable pub build_source_query :
      RunSpec → Option String → Option String → Option String → Result SourceQuery
  unfolding custom_query table_query
  build_source_query spec lower_bound upper_bound custom_sql =
      if spec.extraction.mode == "query"
      then custom_query spec lower_bound upper_bound custom_sql
      else table_query spec lower_bound upper_bound

unfoldable pub build_count_query : SourceQuery → String → String
unfolding as_subquery
build_count_query query alias = "SELECT COUNT(*) AS SOURCE_COUNT FROM " <> as_subquery query alias

unfoldable pub build_bounds_query : RunSpec → SourceQuery → String → Result String
unfolding identifier as_subquery
build_bounds_query spec query alias =
    if is_set spec.source.read.partition_column
    then and_then (identifier (text_of spec.source.read.partition_column)) (λ column. ok (
        "SELECT MIN("
        <> (column
            <> (") AS LOWER_BOUND, MAX("
                <> (column <> (") AS UPPER_BOUND FROM " <> as_subquery query alias))))))
    else err sql_build_error

unfoldable pub build_upper_bound_query : RunSpec → String
unfolding uses_scn
build_upper_bound_query spec =
    if uses_scn spec.extraction.incremental
    then "SELECT DBMS_FLASHBACK.GET_SYSTEM_CHANGE_NUMBER AS UPPER_BOUND FROM DUAL"
    else if spec.extraction.incremental.watermark_type == "date"
    then "SELECT TRUNC(SYSDATE) AS UPPER_BOUND FROM DUAL"
    else "SELECT SYSTIMESTAMP AS UPPER_BOUND FROM DUAL"

unfoldable pub build_max_watermark_query : SourceQuery → String → Result String
unfolding identifier as_subquery
build_max_watermark_query query alias =
    if is_set query.watermark_column
    then and_then (identifier (text_of query.watermark_column)) (λ column.
      ok ("SELECT MAX(" <> (column <> (") AS MAX_WATERMARK FROM " <> as_subquery query alias))))
    else err sql_build_error
