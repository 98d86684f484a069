-- ===== src/Engine/Merge/Rows.antt =====
-- What the MERGE of src/ingestion_framework/engine/loader.py does with the rows of its target, as
-- Delta documents the statement. A row says what each column holds.
use oracle_repo.Base.{
  String, ◌==◌, Bool, true, false, not, ◌&&◌, ◌||◌, Option, none, some, List, [], ◌∷◌, ◌++◌, filter,
  any, all, if◌then◌else◌,
}
use oracle_repo.RunSpec.{Value, null, text, RunSpec}
use oracle_repo.Platform.{Result, ok, err, external, and_then}
use oracle_repo.Engine.Staging.{normalize_columns}
use oracle_repo.Engine.Merge.{copied_columns, merge_guard_column}

abbrev pub Row : Type 0
Row = String → Value

abbrev pub is_null : Value → Bool
is_null null = true
is_null _ = false

abbrev pub named : String → List String → Bool
named c names = any (λ n. n == c) names

-- The row that `t.c = s.c, …, t._source_op = 'U'` leaves.
unfoldable pub updated : List String → List String → Row → Row → Row
unfolding copied_columns
updated keys columns t s c =
    if named c (copied_columns keys columns)
    then s c
    else if named "_source_op" columns && c == "_source_op"
    then text "U"
    else t c

-- `same` and `at_least` say when SQL finds `=` and `>=` TRUE; of a NULL it finds neither.
module _ (same at_least : Value → Value → Bool) where
  -- The ON clause
  abbrev pub matches : List String → Row → Row → Bool
  matches keys t s = all (λ k. same (t k) (s k)) keys

  -- The guard of the matched branch
  abbrev pub may_update : Option String → Row → Row → Bool
  may_update none t s = true
  may_update (some g) t s = is_null (t g) || at_least (s g) (t g)

  -- A row of the target after the statement. Several staged rows that match it are an error.
  unfoldable pub merged_row :
      Option String → List String → List String → Row → List Row → Result Row
  unfolding updated
  merged_row guard keys columns t [] = ok t
  merged_row guard keys columns t (s ∷ []) =
      ok (if may_update guard t s then updated keys columns t s else t)
  merged_row guard keys columns t (s ∷ u ∷ rest) =
      err (external "UnsupportedOperationException" "multiple source rows matched")

  unfoldable pub merged_rows :
      Option String → List String → List String → List Row → List Row → Result (List Row)
  unfolding merged_row
  merged_rows guard keys columns staged [] = ok []
  merged_rows guard keys columns staged (t ∷ target) =
      and_then (merged_row guard keys columns t (filter (matches keys t) staged))
        (λ row. and_then (merged_rows guard keys columns staged target) (λ rows. ok (row ∷ rows)))

  -- The staged rows that match no row of the target.
  abbrev pub unmatched : List String → List Row → List Row → List Row
  unmatched keys target staged = filter (λ s. not (any (λ t. matches keys t s) target)) staged

  unfoldable pub merge_rows : RunSpec → List String → List Row → List Row → Result (List Row)
  unfolding merge_guard_column normalize_columns merged_rows
  merge_rows spec columns staged target =
      let keys = normalize_columns spec.target.merge_keys spec.target.column_case in
      and_then (merged_rows (merge_guard_column spec) keys columns staged target)
        (λ rows. ok (rows ++ unmatched keys target staged))
