-- ===== src/Engine/Staging/Keys.antt =====
-- A batch that the transformer stages for a MERGE has the keys that the loader looks for.
use oracle_repo.Base.{all, ◌||◌, ◌≡◌, String, ◌==◌, true, not, List, is_empty}
use oracle_repo.Engine.Merge.Rows.{named}
use oracle_repo.RunSpec.{RunSpec}
use oracle_repo.Platform.{Platform}
use oracle_repo.Engine.Staging.{normalize_columns, missing_keys}

-- Whether the columns have the keys: in some case of their letters, and, in a target whose columns
-- are written in lower case, as they are spelled there.
abbrev pub HasKeys : RunSpec → List String → Type 0
HasKeys spec columns =
    (is_empty
        (missing_keys (normalize_columns spec.target.merge_keys spec.target.column_case) columns)
      ≡ true)
    × ((not (spec.target.column_case == "lower")
          || all (λ k. named k columns)
              (normalize_columns spec.target.merge_keys spec.target.column_case))
        ≡ true)
