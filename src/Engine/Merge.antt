-- ===== src/Engine/Merge.antt =====
-- src/ingestion_framework/engine/loader.py: the MERGE that keeps a target a mirror of its source,
-- the statement that creates the target, and the counters of a write.
pub mod Laws
pub mod Again
pub mod Rows
use oracle_repo.Base.{
  ℕ, ◌+◌, String, ◌<>◌, ◌==◌, Bool, true, false, not, ◌&&◌, ◌||◌, Option, none, some, List, [], ◌∷◌,
  ◌++◌, map, filter, any, eqb, is_empty, if◌then◌else◌,
}
use oracle_repo.Base.Text.{join, double_quotes, is_blank}
use oracle_repo.Base.Text.Scan.{plain_identifier}
use oracle_repo.RunSpec.{
  Value, null, RunSpec, TargetSpec, is_set, effective_watermark_column, target_fqn, source_fqn,
}
use oracle_repo.Platform.{Platform, sql_build_error, Result, ok, err, and_then}
use oracle_repo.Engine.Expectations.{normalize_column}
use oracle_repo.Engine.Staging.{normalize_columns, has_column, missing_keys}

unfoldable pub delta_identifier : String → Result String
unfolding plain_identifier
delta_identifier name = if plain_identifier name then ok name else err sql_build_error

-- `[delta_identifier(c) for c in names]`
unfoldable pub delta_identifiers : List String → Result (List String)
unfolding delta_identifier
delta_identifiers [] = ok []
delta_identifiers (name ∷ names) =
    and_then (delta_identifier name) (λ c. and_then (delta_identifiers names) (λ cs. ok (c ∷ cs)))

-- The column that the update branch compares; without one the last write wins.
unfoldable pub merge_guard_column : RunSpec → Option String
unfolding effective_watermark_column normalize_column
merge_guard_column spec =
    if not (spec.target.merge_guard == "watermark")
    then none
    else elim (effective_watermark_column spec.extraction.incremental) [
      | none ↦ none
      | some w ↦ if is_blank w then none else some (normalize_column w spec.target.column_case)
    ]

-- Neither a key nor a column that is set on insert only.
unfoldable pub updatable : List String → List String → List String
unfolding has_column
updatable keys columns =
    filter (λ c. not (has_column c keys) && not (c == "_first_ingested_at")) columns

-- The columns that the update branch takes from the staged row.
unfoldable pub copied_columns : List String → List String → List String
unfolding updatable
copied_columns keys columns = filter (λ c. not (c == "_source_op")) (updatable keys columns)

assign : String → String
assign c = "t." <> (c <> (" = s." <> c))

on_clause : List String → Result String
unfolding delta_identifiers assign
on_clause keys = and_then (delta_identifiers keys) (λ ks. ok (join " AND " (map assign ks)))

set_parts : List String → List String → Result (List String)
unfolding copied_columns delta_identifiers assign
set_parts keys columns = and_then (delta_identifiers (copied_columns keys columns)) (λ cs. ok (
    map assign cs
    ++ (if any (λ c. c == "_source_op") columns then "t._source_op = 'U'" ∷ [] else [])))

-- `WHEN MATCHED`, with the guard where there is one
matched_clause : Option String → List String → Result String
unfolding has_column delta_identifier
matched_clause none columns = ok "WHEN MATCHED"
matched_clause (some guard) columns =
    if has_column guard columns
    then and_then (delta_identifier guard) (λ g.
      ok ("WHEN MATCHED AND (t." <> (g <> (" IS NULL OR s." <> (g <> (" >= t." <> (g <> ")")))))))
    else err sql_build_error

merge_text : RunSpec → String → String → String → List String → List String → String
unfolding target_fqn
merge_text spec staged_view on matched sets inserts =
    "MERGE INTO "
    <> (target_fqn spec.target
        <> (" AS t\nUSING "
            <> (staged_view
                <> (" AS s\nON "
                    <> (on
                        <> ("\n"
                            <> (matched
                                <> (" THEN UPDATE SET\n  "
                                    <> (join ",\n  " sets
                                        <> ("\nWHEN NOT MATCHED THEN INSERT (\n  "
                                            <> (join ", " inserts
                                                <> ("\n) VALUES (\n  "
                                                    <> (join ", " (map (λ c. "s." <> c) inserts)
                                                        <> "\n)")))))))))))))

unfoldable pub build_merge_sql : RunSpec → List String → String → Result String
unfolding normalize_columns missing_keys on_clause set_parts delta_identifiers matched_clause
    merge_guard_column merge_text
build_merge_sql spec columns staged_view =
    let keys = normalize_columns spec.target.merge_keys spec.target.column_case in
    if is_empty spec.target.merge_keys || is_empty columns
    then err sql_build_error
    else if not (is_empty (missing_keys keys columns))
    then err sql_build_error
    else and_then (on_clause keys) (λ on. and_then (set_parts keys columns) (λ sets.
      and_then (delta_identifiers columns) (λ inserts.
        and_then (matched_clause (merge_guard_column spec) columns)
          (λ matched. ok (merge_text spec staged_view on matched sets inserts)))))
