-- ===== src/Engine/Expectations.antt =====
-- src/ingestion_framework/engine/reconciler.py: the queries of the expectations.
use oracle_repo.Base.{
  String, ◌<>◌, ◌==◌, Bool, true, false, Option, none, some, List, map, is_empty, if◌then◌else◌,
}
use oracle_repo.Base.Text.{lower, join, double_quotes, is_blank}
use oracle_repo.RunSpec.{Value, null, bool, number, text, date, datetime, Expectation, RunSpec}
use oracle_repo.Platform.{Platform, sql_build_error, Result, ok, err}

-- `normalize_column` of engine/transformer.py
unfoldable pub normalize_column : String → String → String
normalize_column name column_case = if column_case == "lower" then lower name else name

abbrev quoted : String → String
quoted s = "'" <> (double_quotes s <> "'")

abbrev is_null : Value → Bool
is_null null = true
is_null _ = false

-- `SELECT COUNT(*) AS VIOLATIONS FROM view WHERE condition`
count_where : String → String → String
count_where view condition =
    "SELECT COUNT(*) AS VIOLATIONS FROM " <> (view <> (" WHERE " <> condition))

module _ (p : Platform) where
  -- `_literal`
  unfoldable pub literal : Value → String
  literal null = "NULL"
  literal (bool true) = "TRUE"
  literal (bool false) = "FALSE"
  literal (number s) = s
  literal (text s) = quoted s
  literal (date d) = quoted (p.date_text d)
  literal (datetime t) = quoted (p.datetime_text t)

  in_set_query : String → String → List Value → Result String
  unfolding count_where literal join
  in_set_query view column values =
      if is_empty values
      then err sql_build_error
      else ok (
          count_where view (
            column
            <> (" IS NOT NULL AND "
                <> (column <> (" NOT IN (" <> (join ", " (map literal values) <> ")"))))))

  bound_query : String → String → String → Value → Result String
  unfolding count_where literal
  bound_query view column operator value =
      if is_null value
      then err sql_build_error
      else ok (
          count_where view (
            column
            <> (" IS NOT NULL AND " <> (column <> (" " <> (operator <> (" " <> literal value)))))))

  regex_query : String → String → Option String → Result String
  unfolding count_where literal
  regex_query view column none = err sql_build_error
  regex_query view column (some pattern) =
      if is_blank pattern
      then err sql_build_error
      else ok (
          count_where view (
            column
            <> (" IS NOT NULL AND NOT " <> (column <> (" RLIKE " <> literal (text pattern))))))

  -- SQL returning the number of rows that violate the expectation.
  unfoldable pub build_expectation_query : Expectation → RunSpec → String → Result String
  unfolding normalize_column count_where in_set_query bound_query regex_query
  build_expectation_query e spec view =
      let column = normalize_column e.column spec.target.column_case in
      if e.rule == "not_null"
      then ok (count_where view (column <> " IS NULL"))
      else if e.rule == "unique"
      then ok ("SELECT COUNT(*) - COUNT(DISTINCT " <> (column <> (") AS VIOLATIONS FROM " <> view)))
      else if e.rule == "in_set"
      then in_set_query view column e.values
      else if e.rule == "min"
      then bound_query view column "<" e.value
      else if e.rule == "max"
      then bound_query view column ">" e.value
      else if e.rule == "regex"
      then regex_query view column e.pattern
      else err sql_build_error
