-- ===== src/Engine/Sql/Predicates.antt =====
-- src/ingestion_framework/engine/sql_builder.py: the projection and the predicates of an extract.
pub mod Windows
pub mod Projection
use oracle_repo.Base.{
  String, ◌<>◌, ◌==◌, Bool, true, false, not, Option, none, some, List, [], ◌∷◌, ◌++◌, map, filter,
  any, is_empty, if◌then◌else◌,
}
use oracle_repo.Base.Text.{upper, join, is_blank}
use oracle_repo.RunSpec.{
  RunSpec, star, listed, auto, fixed, Columns, BoundInclusive, ExtractionSpec, is_set, uses_scn,
  effective_watermark_column, bound_type, column_list, is_incremental,
}
use oracle_repo.Platform.{Platform, sql_build_error, Result, ok, err, and_then}
use oracle_repo.Engine.Sql.Literals.{literal, identifier}

-- An explicit `bound_inclusive` overrides what the write mode suggests.
unfoldable pub lower_bound_is_inclusive : RunSpec → Bool
lower_bound_is_inclusive spec = elim spec.extraction.incremental.bound_inclusive [
  | fixed b ↦ b
  | auto ↦ not (spec.target.write_mode == "append")
]

-- `[identifier(c) for c in names]`
unfoldable pub identifiers : List String → Result (List String)
unfolding identifier
identifiers [] = ok []
identifiers (name ∷ names) =
    and_then (identifier name) (λ c. and_then (identifiers names) (λ cs. ok (c ∷ cs)))

unfoldable pub without : List String → List String → List String
without excluded columns = filter (λ c. not (any (λ x. upper x == upper c) excluded)) columns

-- The columns once those of `exclude_columns` are left out.
kept_columns : List String → List String → Result (List String)
unfolding without
kept_columns excluded columns =
    if is_empty excluded
    then ok columns
    else if is_empty (without excluded columns)
    then err sql_build_error
    else ok (without excluded columns)

named_columns : ExtractionSpec → Columns → Result (List String)
unfolding identifiers kept_columns
named_columns x star = ok ("*" ∷ [])
named_columns x (listed names) = and_then (identifiers names) (kept_columns x.exclude_columns)

scn_columns : ExtractionSpec → List String
unfolding is_incremental uses_scn
scn_columns x =
    if is_incremental x
    then if uses_scn x.incremental then "ORA_ROWSCN AS ORA_ROWSCN" ∷ [] else []
    else []

-- The columns of the projection; the SELECT list is their `join`.
unfoldable pub build_projection : RunSpec → Result (List String)
unfolding named_columns scn_columns
build_projection spec =
    and_then (named_columns spec.extraction spec.extraction.columns)
      (λ columns. ok (columns ++ scn_columns spec.extraction))

-- One test of the WHERE clause: the column against a bound.
pub record Comparison : Type 0 where
  pub operator : String
  pub bound : String

unfoldable pub lower_comparison : RunSpec → Option String → List Comparison
unfolding lower_bound_is_inclusive
lower_comparison spec none = []
lower_comparison spec (some b) =
    record { operator = if lower_bound_is_inclusive spec then ">=" else ">"; bound = b } ∷ []

unfoldable pub upper_comparison : Option String → List Comparison
upper_comparison none = []
upper_comparison (some b) = record { operator = "<"; bound = b } ∷ []

-- The tests that the bounds of the window ask for.
unfoldable pub window_comparisons : RunSpec → Option String → Option String → List Comparison
unfolding lower_comparison upper_comparison
window_comparisons spec lower_bound upper_bound =
    lower_comparison spec lower_bound ++ upper_comparison upper_bound

unfoldable pub filter_predicates : Option String → List String
filter_predicates none = []
filter_predicates (some s) = if is_blank s then [] else ("(" <> (s <> ")")) ∷ []

module _ (p : Platform) where
  unfoldable pub comparison_text : String → String → Comparison → Result String
  unfolding literal
  comparison_text column wtype c =
      and_then (literal p (some c.bound) wtype)
        (λ sql. ok (column <> (" " <> (c.operator <> (" " <> sql)))))

  unfoldable pub comparison_texts : String → String → List Comparison → Result (List String)
  unfolding comparison_text
  comparison_texts column wtype [] = ok []
  comparison_texts column wtype (c ∷ cs) =
      and_then (comparison_text column wtype c)
        (λ s. and_then (comparison_texts column wtype cs) (λ ss. ok (s ∷ ss)))

  -- The tests on the watermark column; without a column there is no extract.
  unfoldable pub watermark_predicates :
      RunSpec → Option String → List Comparison → Result (List String)
  unfolding identifier bound_type comparison_texts
  watermark_predicates spec none comparisons = err sql_build_error
  watermark_predicates spec (some column) comparisons =
      and_then (identifier column)
        (λ c. comparison_texts c (bound_type spec.extraction.incremental) comparisons)

  unfoldable pub build_predicates : RunSpec → Option String → Option String → Result (List String)
  unfolding is_incremental effective_watermark_column window_comparisons watermark_predicates
      filter_predicates
  build_predicates spec lower_bound upper_bound =
      and_then
        (if is_incremental spec.extraction
          then watermark_predicates spec (effective_watermark_column spec.extraction.incremental)
              (window_comparisons spec lower_bound upper_bound)
          else ok [])
        (λ predicates. ok (predicates ++ filter_predicates spec.extraction.filter))
