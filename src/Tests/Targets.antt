-- ===== src/Tests/Targets.antt =====
-- The theorems on the writing of a target and of the control tables at concrete inputs.
use oracle_repo.Base.{refl, ◌≡◌, String, ◌==◌, Bool, false, List, [], ◌∷◌, length, if◌then◌else◌}
use oracle_repo.Base.Text.{lower, upper}
use oracle_repo.RunSpec.{Value, number, text}
use oracle_repo.Platform.{ok}
use oracle_repo.Engine.Staging.{normalize_columns, has_column}
use oracle_repo.Engine.Merge.Rows.{Row, updated, merge_rows}
use oracle_repo.Engine.Merge.Laws.{updated_lem}
use oracle_repo.Engine.Merge.Again.{merge_rows_again}
use oracle_repo.Tests.Sample.{merge_spec}

abbrev batch_columns : List String
batch_columns = "id" ∷ "name" ∷ "_source_op" ∷ "_first_ingested_at" ∷ []

abbrev row_of : String → String → Row
row_of id name c = if c == "id" then number id else if c == "name" then text name else text "I"

updated_example :
    updated ("id" ∷ []) batch_columns (row_of "1" "old") (row_of "1" "new") "name" ≡ text "new"
unfolding has_column upper
updated_example =
    updated_lem ("id" ∷ []) batch_columns (row_of "1" "old") (row_of "1" "new") "name" refl

abbrev same_number : Value → Value → Bool
same_number (number a) (number b) = a == b
same_number _ _ = false

abbrev two_rows : List Row
two_rows = row_of "1" "new" ∷ row_of "2" "two" ∷ []

abbrev old_row : List Row
old_row = row_of "1" "old" ∷ []

-- What the merge leaves of them: the first row updated, the second inserted.
abbrev merged_rows_of : List Row
merged_rows_of =
    updated ("id" ∷ []) batch_columns (row_of "1" "old") (row_of "1" "new") ∷ row_of "2" "two" ∷ []

rows_merged :
    merge_rows same_number same_number merge_spec batch_columns two_rows old_row ≡ ok merged_rows_of
unfolding merge_rows lower
rows_merged = refl

merge_rows_again_example :
    (again : List Row) × (merge_rows same_number same_number merge_spec batch_columns two_rows
        merged_rows_of
      ≡ ok again)
    × (length again ≡ 2)
unfolding normalize_columns lower
merge_rows_again_example =
    merge_rows_again same_number same_number merge_spec batch_columns two_rows old_row
      merged_rows_of refl refl refl rows_merged
