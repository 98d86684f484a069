-- ===== src/Engine/Staging.antt =====
-- src/ingestion_framework/engine/transformer.py: the statement that shapes an extract for its
-- target, and the queries that count what it leaves out.
pub mod Keys
use Prim.Native.Char.{code}
use oracle_repo.Base.{
  ℕ, zero, suc, String, ◌<>◌, ◌==◌, Bool, true, false, not, ◌&&◌, ◌||◌, Option, none, some, List,
  [], ◌∷◌, ◌++◌, map, filter, any, eqb, is_empty, if◌then◌else◌,
}
use oracle_repo.Base.Text.{upper, join, strip, drop_chars}
use oracle_repo.Base.Text.Scan.{has_prefix, strip_char, is_letter, is_decimal, at_end}
use oracle_repo.RunSpec.{RunSpec, effective_watermark_column, is_merge}
use oracle_repo.Platform.{
  Platform, timestamp_format, date_format, sql_build_error, Result, ok, err, and_then,
}
use oracle_repo.Engine.Expectations.{normalize_column}

unfoldable pub normalize_columns : List String → String → List String
unfolding normalize_column
normalize_columns names column_case = map (λ n. normalize_column n column_case) names

-- The piece after the last " AS ", where `piece` starts at the last one that is passed.
last_piece : ℕ → String → String → String
unfolding has_prefix
last_piece skip piece String.[] = piece
last_piece (suc skip) piece (String.◌∷◌ c s) = last_piece skip piece s
last_piece zero piece (String.◌∷◌ c s) =
    let passed = last_piece 3 (drop_chars 4 (String.◌∷◌ c s)) s in
    let kept = last_piece zero piece s in
    if has_prefix " AS " (String.◌∷◌ c s) then passed else kept

-- The name that a column has as it comes from the source.
unfoldable pub source_column_name : String → String
unfolding last_piece strip strip_char
source_column_name name = strip_char b'"' (strip (last_piece 0 name name))

abbrev pub audit_columns : List String
audit_columns =
    "_ingested_at" ∷ "_ingested_date" ∷ "_run_id" ∷ "_batch_id" ∷ "_source_op"
    ∷ "_first_ingested_at" ∷ []

is_safe : ℕ → Bool
is_safe c =
    is_letter c
    || (is_decimal c || (eqb c b'_' || (eqb c b'.' || (eqb c b':' || (eqb c b'+' || eqb c b'-')))))

-- `_SAFE_LITERAL`
safe_literal : String → Bool
unfolding is_safe
safe_literal String.[] = true
safe_literal (String.◌∷◌ c s) =
    let more = safe_literal s in at_end (String.◌∷◌ c s) || (is_safe (code c) && more)

-- `_literal` of a run's or a batch's identifier
unfoldable pub framework_literal : String → Result String
unfolding safe_literal
framework_literal s = if safe_literal s then ok ("'" <> (s <> "'")) else err sql_build_error

-- Whether a name is among the columns, in any case of its letters.
unfoldable pub has_column : String → List String → Bool
has_column name columns = any (λ c. upper c == upper name) columns

abbrev pub truthy : Option String → String
truthy none = ""
truthy (some s) = s

watermark_order : String → List String → List String
unfolding has_column
watermark_order watermark available =
    if not (watermark == "") && has_column watermark available
    then (watermark <> " DESC NULLS LAST") ∷ []
    else []

scn_order : String → List String → List String
unfolding has_column
scn_order watermark available =
    if has_column "ORA_ROWSCN" available
      && (watermark == "" || not (upper watermark == "ORA_ROWSCN"))
    then "ORA_ROWSCN DESC NULLS LAST" ∷ []
    else []

-- How the surviving row of a key is picked: the newest, where there is such a notion.
unfoldable pub order_parts : RunSpec → List String → List String
unfolding watermark_order scn_order effective_watermark_column
order_parts spec available =
    let watermark = truthy (effective_watermark_column spec.extraction.incremental) in
    let parts = watermark_order watermark available ++ scn_order watermark available in
    if is_empty parts then "monotonically_increasing_id() DESC" ∷ [] else parts

unfoldable pub dedupe_order_expression : RunSpec → List String → String
unfolding order_parts
dedupe_order_expression spec available = join ", " (order_parts spec available)

unfoldable pub needs_dedupe : RunSpec → Bool
unfolding is_merge
needs_dedupe spec = is_merge spec.target && not (is_empty spec.target.merge_keys)

pub record StageQuery : Type 0 where
  pub sql : String
  pub columns : List String
  pub data_columns : List String
  pub dedupe_applied : Bool
  pub dedupe_keys : List String
  pub order_by : Option String

-- One column of the SELECT list, under its name in the target.
projected : String → String → String
unfolding normalize_column
projected column_case raw =
    let final = normalize_column raw column_case in
    if raw == final then raw else raw <> (" AS " <> final)

-- The merge keys that the batch does not have.
unfoldable pub missing_keys : List String → List String → List String
unfolding has_column
missing_keys keys columns = filter (λ k. not (has_column k columns)) keys

module _ (p : Platform) where
  timestamp_literal : ℕ → String
  timestamp_literal t = "TIMESTAMP '" <> (p.strftime timestamp_format t <> "'")

  date_literal : ℕ → String
  date_literal t = "DATE '" <> (p.strftime date_format t <> "'")

  audit_projection : RunSpec → String → String → ℕ → Result (List String)
  unfolding framework_literal timestamp_literal date_literal
  audit_projection spec run_id batch_id ingested_at =
      if spec.target.add_audit_columns
      then and_then (framework_literal run_id) (λ run.
        and_then (framework_literal batch_id) (λ batch. ok (
          (timestamp_literal ingested_at <> " AS _ingested_at")
          ∷ (date_literal ingested_at <> " AS _ingested_date")
          ∷ (run <> " AS _run_id")
          ∷ (batch <> " AS _batch_id")
          ∷ "'I' AS _source_op"
          ∷ (timestamp_literal ingested_at <> " AS _first_ingested_at")
          ∷ [])))
      else ok []

  staged_columns : RunSpec → List String → List String
  staged_columns spec data_columns =
      data_columns ++ (if spec.target.add_audit_columns then audit_columns else [])

  plain_stage : RunSpec → List String → String → String → StageQuery
  unfolding staged_columns
  plain_stage spec data_columns select_list raw_view = record {
    sql = "SELECT\n  " <> (select_list <> ("\nFROM " <> raw_view));
    columns = staged_columns spec data_columns;
    data_columns = data_columns;
    dedupe_applied = false;
    dedupe_keys = [];
    order_by = none;
  }

  deduped_stage : RunSpec → List String → List String → String → String → Result StageQuery
  unfolding staged_columns normalize_columns missing_keys dedupe_order_expression
  deduped_stage spec incoming data_columns select_list raw_view =
      let keys = normalize_columns spec.target.merge_keys spec.target.column_case in
      let order_by = dedupe_order_expression spec incoming in
      if is_empty (missing_keys keys data_columns)
      then ok (record {
        sql =
            "SELECT\n  "
            <> (select_list
                <> ("\nFROM (\n  SELECT *, ROW_NUMBER() OVER (\n    PARTITION BY "
                    <> (join ", " spec.target.merge_keys
                        <> ("\n    ORDER BY "
                            <> (order_by
                                <> ("\n  ) AS _rn\n  FROM "
                                    <> (raw_view <> "\n)\nWHERE _rn = 1")))))));
        columns = staged_columns spec data_columns;
        data_columns = data_columns;
        dedupe_applied = true;
        dedupe_keys = keys;
        order_by = some order_by;
      })
      else err sql_build_error

  unfoldable pub build_stage_query :
      RunSpec → List String → String → String → ℕ → String → Result StageQuery
  unfolding source_column_name normalize_columns projected audit_projection needs_dedupe plain_stage
      deduped_stage
  build_stage_query spec source_columns run_id batch_id ingested_at raw_view =
      if is_empty source_columns
      then err sql_build_error
      else let incoming = map source_column_name source_columns in
        let data_columns = normalize_columns incoming spec.target.column_case in
        and_then (audit_projection spec run_id batch_id ingested_at) (λ audit.
          let select_list =
            join ",\n  " (map (projected spec.target.column_case) incoming ++ audit) in
          if needs_dedupe spec
          then deduped_stage spec incoming data_columns select_list raw_view
          else ok (plain_stage spec data_columns select_list raw_view))

unfoldable pub build_duplicate_count_query : RunSpec → String → Result String
build_duplicate_count_query spec raw_view =
    if is_empty spec.target.merge_keys
    then err sql_build_error
    else ok (
        "SELECT COUNT(*) - COUNT(DISTINCT "
        <> (join ", " spec.target.merge_keys <> (") AS DUPLICATE_ROWS FROM " <> raw_view)))

unfoldable pub build_null_key_query : RunSpec → String → Result String
build_null_key_query spec raw_view =
    if is_empty spec.target.merge_keys
    then err sql_build_error
    else ok (
        "SELECT COUNT(*) AS NULL_KEY_ROWS FROM "
        <> (raw_view
            <> (" WHERE " <> join " OR " (map (λ k. k <> " IS NULL") spec.target.merge_keys))))
