-- ===== src/Tests/Queries.antt =====
-- The theorems on the queries of an extract at concrete inputs.
use Prim.Native.String.{count}
use oracle_repo.Base.{refl, ◌≡◌, String, true, false, ◌||◌, some, List, [], ◌∷◌, all, arith}
use oracle_repo.Base.Text.{upper, lower}
use oracle_repo.Base.Text.Scan.{has_char}
use oracle_repo.Platform.{ok}
use oracle_repo.Engine.Sql.Literals.{literal}
use oracle_repo.Engine.Sql.Literals.Safety.{literal_closed}
use oracle_repo.Engine.Sql.Predicates.{lower_bound_is_inclusive, build_projection}
use oracle_repo.Engine.Sql.Predicates.Windows.{times_read, Rising, times_read_lem}
use oracle_repo.Engine.Sql.Predicates.Projection.{may_stand, build_projection_excludes}
use oracle_repo.Tests.Sample.{sample_platform, sample_platform-IsWide, sample_spec, merge_spec}

abbrev day_bound : String
day_bound = "2024-05-01"

abbrev day_sql : String
day_sql = "TO_DATE('2024-05-01', 'YYYY-MM-DD')"

day_literal : literal sample_platform (some day_bound) "date" ≡ ok day_sql
unfolding literal lower
day_literal = refl

literal_closed_example : (has_char b'\'' day_bound || has_char b';' day_bound) ≡ false
unfolding lower
literal_closed_example =
    literal_closed sample_platform sample_platform-IsWide day_bound "date" day_sql day_literal refl

-- Runs that stop at 1, 3 and 6, on a table that is appended to: the row at 3 is never read.
abbrev later_bounds : List String
later_bounds = "111" ∷ "111111" ∷ []

bounds_rise : Rising count "1" later_bounds
bounds_rise = (omega arith, (omega arith, tt))

times_read_example : times_read count sample_spec "1" later_bounds 3 ≡ 0
unfolding lower_bound_is_inclusive
times_read_example = times_read_lem count sample_spec "1" later_bounds 3 bounds_rise

abbrev kept_columns : List String
kept_columns = "ID" ∷ "NAME" ∷ []

projected : build_projection merge_spec ≡ ok kept_columns
unfolding build_projection upper
projected = refl

build_projection_excludes_example : all (may_stand ("ssn" ∷ [])) kept_columns ≡ true
build_projection_excludes_example =
    build_projection_excludes merge_spec ("ID" ∷ "NAME" ∷ "SSN" ∷ []) kept_columns refl projected
